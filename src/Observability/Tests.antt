-- ===== src/Observability/Tests.antt =====
-- A provider that keeps one trace, and an execution of one node.
use ai_employee_os.Common.{◌≡◌, refl, none, some, List, [], ◌∷◌, string_eq, arith}
use ai_employee_os.Common.Json.{end}
use ai_employee_os.Common.Dict.{lookup}
use ai_employee_os.Observability.Models.{TraceStatus, TimelineEventStatus, ExecutionTrace}
use ai_employee_os.Observability.Provider.{Provider, get_trace, timeline_of}
use ai_employee_os.Observability.Provider.Retention.{IsRetained}
use ai_employee_os.Observability.Tracer.{
  Recorder, start, finish, start_node, finish_node, find_open,
}
use ai_employee_os.Observability.Tracer.Calls.{Call, IsKept, after_calls, after_calls-IsKept}
use ai_employee_os.Observability.Tracer.Executions.{finish-start}
use ai_employee_os.Observability.Tracer.Timeline.{recorded, finish_node-start_node}

abbrev earlier : ExecutionTrace
earlier = record {
  trace_id = "t0";
  execution_id = "e0";
  started_at = 3;
  finished_at = none;
  status = TraceStatus.running;
  duration = none;
  metadata = end;
  timeline = none;
}

abbrev provider : Provider
provider = record {
  max_traces = 1;
  traces = ("t0", earlier) ∷ [];
  execution_count = 0;
  failed_count = 0;
  duration_total = 0;
  llm_calls = 0;
  tokens = 0;
  queue_size = 0;
}

abbrev recorder : Recorder
recorder = record { provider = provider; open_events = [] }

abbrev calls : List Call
calls =
    Call.starts 5 "t1" "e1" end
    ∷ Call.starts_node 6 "v" "t1" "planner"
    ∷ Call.finishes 9 "t1" TraceStatus.failed end
    ∷ []

retained : IsRetained 1 provider.traces
unfolding lookup
retained = record { bounded = omega arith; distinct = (refl, tt); own = (refl, tt) }

after_calls-IsKept_example : IsKept 1 (after_calls calls recorder).provider
after_calls-IsKept_example =
    after_calls-IsKept 1 calls recorder
      (record { limit = refl; retained = retained; failures = omega arith })

finish-start_example :
    let (done, q) = finish 9 "t1" TraceStatus.failed end (start 5 "t1" "e1" end provider).1 in
    (trace : ExecutionTrace) × (done ≡ some trace)
    × (get_trace "t1" q ≡ some trace)
    × (trace.status ≡ TraceStatus.failed)
    × (trace.finished_at ≡ some 9)
    × (trace.duration ≡ some 4)
    × (trace.execution_id ≡ "e1")
    × (q.execution_count ≡ 1)
    × (q.failed_count ≡ 1)
finish-start_example =
    finish-start 5 9 "t1" "e1" TraceStatus.failed end end provider (omega arith) retained (refl, tt)

finish_node-start_node_example :
    let done =
      (finish_node 8 "u" "t0" "planner" TimelineEventStatus.completed end
        (start_node 6 "v" "t0" "planner" end recorder).1).1 in
    (lookup "t0" done.provider.traces
      ≡ some (record earlier {
        timeline = some (record (timeline_of earlier) {
          events = recorded 6 8 "v" "planner" TimelineEventStatus.completed end ∷ [];
        });
      }))
    × (find_open "t0" "planner" done.open_events ≡ none)
unfolding lookup string_eq
finish_node-start_node_example =
    finish_node-start_node 6 8 "v" "u" "t0" "planner" TimelineEventStatus.completed end recorder
      earlier refl tt
