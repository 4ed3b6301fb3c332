-- ===== src/Observability/Tracer.antt =====
-- `Tracer` and `TimelineRecorder` of backend/app/observability/tracer.py, as the manager of
-- backend/app/observability/manager.py calls them. The clock reads `now`, and a time that lies
-- behind a later one counts as no duration.
pub mod Calls
pub mod Executions
pub mod Timeline
use ai_employee_os.Common.{
  ℕ, ◌-◌, String, Bool, Option, none, some, List, [], ◌∷◌, if◌then◌else◌, ◌==◌, ◌&&◌, string_eq,
}
use ai_employee_os.Common.Json.{Fields, end, update_fields}
use ai_employee_os.Observability.Models.{
  TraceStatus, TimelineEventStatus, TimelineEvent, ExecutionTrace, empty_timeline, is_failed,
}
use ai_employee_os.Observability.Provider.{
  Provider, save_trace, get_trace, save_timeline_event, record_execution,
}

abbrev new_trace : ℕ → String → String → Fields → ExecutionTrace
new_trace now trace_id execution_id metadata = record {
  trace_id = trace_id;
  execution_id = execution_id;
  started_at = now;
  finished_at = none;
  status = TraceStatus.running;
  duration = none;
  metadata = metadata;
  timeline = some (empty_timeline trace_id execution_id);
}

unfoldable pub start : ℕ → String → String → Fields → Provider → ExecutionTrace × Provider
start now trace_id execution_id metadata p =
    save_trace (new_trace now trace_id execution_id metadata) p

abbrev finished_trace : ℕ → TraceStatus → Fields → ExecutionTrace → ExecutionTrace
finished_trace now status metadata trace = record trace {
  finished_at = some now;
  status = status;
  duration = some (now - trace.started_at);
  metadata = update_fields trace.metadata metadata;
}

-- None stands for the ValueError of a trace that is not there.
unfoldable pub finish :
    ℕ → String → TraceStatus → Fields → Provider → Option ExecutionTrace × Provider
finish now trace_id status metadata p = elim (get_trace trace_id p) [
  | none ↦ (none, p)
  | some trace ↦
      let (saved, stored) = save_trace (finished_trace now status metadata trace) p in
      (some saved, record_execution (is_failed status) (now - trace.started_at) stored)
]

-- The events that have started and not finished, by their trace and node: an event in it is the
-- stored one.
pub record Recorder : Type 0 where
  pub provider : Provider
  pub open_events : List (String × String × TimelineEvent)

abbrev pub find_open :
    String → String → List (String × String × TimelineEvent) → Option TimelineEvent
find_open trace_id node_name [] = none
find_open trace_id node_name ((t, n, event) ∷ rest) =
    let later = find_open trace_id node_name rest in
    if trace_id == t && node_name == n then some event else later

abbrev pub without_open :
    String
    → String
    → List (String × String × TimelineEvent)
    → List (String × String × TimelineEvent)
without_open trace_id node_name [] = []
without_open trace_id node_name ((t, n, event) ∷ rest) =
    let others = without_open trace_id node_name rest in
    if trace_id == t && node_name == n then others else (t, n, event) ∷ others

abbrev new_event : ℕ → String → String → Fields → TimelineEvent
new_event now id node_name metadata = record {
  id = id;
  node_name = node_name;
  started_at = now;
  finished_at = none;
  duration = none;
  status = TimelineEventStatus.started;
  metadata = metadata;
}

abbrev pub opened :
    String → String → Recorder → Option TimelineEvent × Provider → Option TimelineEvent × Recorder
opened trace_id node_name r (none, p) = (none, record r { provider = p })
opened trace_id node_name r (some event, p) = (
  some event,
  record {
    provider = p;
    open_events = (trace_id, node_name, event) ∷ without_open trace_id node_name r.open_events;
  },
)

unfoldable pub start_node :
    ℕ → String → String → String → Fields → Recorder → Option TimelineEvent × Recorder
start_node now id trace_id node_name metadata r =
    opened trace_id node_name r
      (save_timeline_event trace_id (new_event now id node_name metadata) r.provider)

abbrev finished_event : ℕ → TimelineEventStatus → Fields → TimelineEvent → TimelineEvent
finished_event now status metadata event = record event {
  finished_at = some now;
  duration = some (now - event.started_at);
  status = status;
  metadata = update_fields event.metadata metadata;
}

-- An event that has not started is made up, under a new id.
abbrev open_or_new : ℕ → String → String → Option TimelineEvent → TimelineEvent
open_or_new now id node_name none = new_event now id node_name end
open_or_new now id node_name (some event) = event

unfoldable pub finish_node :
    ℕ
    → String
    → String
    → String
    → TimelineEventStatus
    → Fields
    → Recorder
    → Option TimelineEvent × Recorder
finish_node now id trace_id node_name status metadata r =
    let event = open_or_new now id node_name (find_open trace_id node_name r.open_events) in
    let (saved, p) =
      save_timeline_event trace_id (finished_event now status metadata event) r.provider in
    (saved, record { provider = p; open_events = without_open trace_id node_name r.open_events })
