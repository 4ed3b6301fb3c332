-- ===== src/Observability/Tracer/Timeline.antt =====
-- The event of a node that starts and finishes.
use ai_employee_os.Common.{
  ℕ, ◌-◌, ◌≡◌, refl, ap, ◌∙◌, String, false, Option, none, some, List, [], ◌∷◌, ◌++◌, All, arith,
  ◌==◌, string_eq, ==_refl, option-by,
}
use ai_employee_os.Common.Json.{Fields, end, update_fields}
use ai_employee_os.Common.Dict.{lookup, insert, lookup-insert_self}
use ai_employee_os.Observability.Models.{TimelineEventStatus, TimelineEvent, ExecutionTrace}
use ai_employee_os.Observability.Provider.{
  Provider, save_timeline_event, put_event, timeline_of, with_event,
}
use ai_employee_os.Observability.Tracer.{
  Recorder, start_node, finish_node, find_open, without_open, new_event, finished_event,
}

put_event-new :
    (event : TimelineEvent) (events : List TimelineEvent)
    → All (λ (item : TimelineEvent). (item.id == event.id) ≡ false) events
    → put_event event events ≡ events ++ (event ∷ [])
unfolding put_event
put_event-new event [] h = refl
put_event-new event (item ∷ events) (other, others) =
    rw other (ap (λ rest. item ∷ rest) (put_event-new event events others))

put_event-again :
    (event ended : TimelineEvent) (events : List TimelineEvent)
    → event.id ≡ ended.id
    → All (λ (item : TimelineEvent). (item.id == ended.id) ≡ false) events
    → put_event ended (events ++ (event ∷ [])) ≡ events ++ (ended ∷ [])
unfolding put_event
put_event-again event ended [] same h = ground arith
put_event-again event ended (item ∷ events) same (other, others) =
    rw other (ap (λ rest. item ∷ rest) (put_event-again event ended events same others))

find_open-without_open :
    (trace_id node_name : String) (open_events : List (String × String × TimelineEvent))
    → find_open trace_id node_name (without_open trace_id node_name open_events) ≡ none
find_open-without_open trace_id node_name [] = refl
find_open-without_open trace_id node_name ((t, n, event) ∷ rest) =
    ground (arith, find_open-without_open trace_id node_name rest)

save_timeline_event-found :
    (trace_id : String) (event : TimelineEvent) (p : Provider) (trace : ExecutionTrace)
    → lookup trace_id p.traces ≡ some trace
    → save_timeline_event trace_id event p
      ≡ (some event, record p { traces = insert trace_id (with_event event trace) p.traces })
unfolding save_timeline_event
save_timeline_event-found trace_id event p trace found =
    option-by
      (λ (x : Option TimelineEvent × Provider).
        x ≡ (some event, record p { traces = insert trace_id (with_event event trace) p.traces }))
      (lookup trace_id p.traces) (λ missing. cc)
      (λ there again. let same : there ≡ trace = cc in rw same refl)

-- The event of a node that has started and finished
abbrev pub recorded : ℕ → ℕ → String → String → TimelineEventStatus → Fields → TimelineEvent
recorded now later id node_name status metadata = record {
  id = id;
  node_name = node_name;
  started_at = now;
  finished_at = some later;
  duration = some (later - now);
  status = status;
  metadata = update_fields end metadata;
}

-- A node of a stored trace starts, under an event's id that is new to the timeline, and finishes.
-- Then the timeline is the old one with one event more, which tells when the node started and
-- finished and how, and no event of the node is open.
pub finish_node-start_node :
    (now later : ℕ) (id other trace_id node_name : String) (status : TimelineEventStatus)
    (metadata : Fields) (r : Recorder) (trace : ExecutionTrace)
    → lookup trace_id r.provider.traces ≡ some trace
    → All (λ (item : TimelineEvent). (item.id == id) ≡ false) (timeline_of trace).events
    → let done =
        (finish_node later other trace_id node_name status metadata
          (start_node now id trace_id node_name end r).1).1 in
      (lookup trace_id done.provider.traces
        ≡ some (record trace {
          timeline = some (record (timeline_of trace) {
            events =
                (timeline_of trace).events
                ++ (recorded now later id node_name status metadata ∷ []);
          });
        }))
      × (find_open trace_id node_name done.open_events ≡ none)
unfolding start_node finish_node
finish_node-start_node now later id other trace_id node_name status metadata r trace found fresh =
    let event = new_event now id node_name end in
    let ended = finished_event later status metadata event in
    let old = (timeline_of trace).events in
    let started = record r.provider {
      traces = insert trace_id (with_event event trace) r.provider.traces;
    } in
    let stored = lookup-insert_self trace_id (with_event event trace) r.provider.traces in
    rw
      (
        save_timeline_event-found trace_id event r.provider trace found,
        ==_refl trace_id,
        ==_refl node_name,
      )
      (rw (save_timeline_event-found trace_id ended started (with_event event trace) stored) (
        lookup-insert_self trace_id (with_event ended (with_event event trace)) started.traces
            ∙ ap
                (λ events. some (record trace {
                  timeline = some (record (timeline_of trace) { events = events });
                }))
                (ap (put_event ended) (put_event-new event old fresh)
                  ∙ put_event-again event ended old refl fresh),
        find_open-without_open trace_id node_name (without_open trace_id node_name r.open_events),
      ))
