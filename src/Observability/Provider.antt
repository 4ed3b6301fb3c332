-- ===== src/Observability/Provider.antt =====
-- `InMemoryObservabilityProvider` of backend/app/observability/providers/in_memory_provider.py and
-- the retention of backend/app/observability/policies/retention_policy.py.
pub mod Retention
use ai_employee_os.Common.{
  ℕ, suc, ◌+◌, ◌-◌, String, Bool, true, false, Option, none, some, List, [], ◌∷◌, ◌++◌, map, take,
  length, select, any, if◌then◌else◌, ltb, leb, eqb, ◌==◌, string_eq,
}
use ai_employee_os.Common.Dict.{Dict, lookup, insert, remove, values}
use ai_employee_os.Common.Sorting.{sort}
use ai_employee_os.Observability.Models.{
  TraceStatus, TimelineEvent, ExecutionTimeline, ExecutionTrace, MetricsSnapshot, is_over,
  is_active, empty_timeline,
}

pub record Provider : Type 0 where
  pub max_traces : ℕ
  pub traces : Dict String ExecutionTrace
  pub execution_count : ℕ
  pub failed_count : ℕ
  pub duration_total : ℕ
  pub llm_calls : ℕ
  pub tokens : ℕ
  pub queue_size : ℕ

abbrev pub older : ExecutionTrace → ExecutionTrace → Bool
older a b = leb a.started_at b.started_at

abbrev pub newer : ExecutionTrace → ExecutionTrace → Bool
newer a b = leb b.started_at a.started_at

-- The ids of the oldest traces, as many as there are too many
unfoldable pub select_eviction_ids : List ExecutionTrace → ℕ → List String
select_eviction_ids traces overflow =
    map (λ trace. trace.trace_id) (take overflow (sort older traces))

abbrev pub remove_all : List String → Dict String ExecutionTrace → Dict String ExecutionTrace
remove_all [] traces = traces
remove_all (id ∷ ids) traces = remove_all ids (remove id traces)

unfoldable pub enforce_retention : ℕ → Dict String ExecutionTrace → Dict String ExecutionTrace
enforce_retention max_traces traces =
    remove_all (select_eviction_ids (values traces) (length traces - max_traces)) traces

abbrev pub timeline_of : ExecutionTrace → ExecutionTimeline
timeline_of trace = elim trace.timeline [
  | some timeline ↦ timeline
  | none ↦ empty_timeline trace.trace_id trace.execution_id
]

abbrev pub with_timeline : ExecutionTrace → ExecutionTrace
with_timeline trace = record trace { timeline = some (timeline_of trace) }

unfoldable pub save_trace : ExecutionTrace → Provider → ExecutionTrace × Provider
save_trace trace p =
    let saved = with_timeline trace in
    (
      saved,
      record p { traces = enforce_retention p.max_traces (insert trace.trace_id saved p.traces) },
    )

unfoldable pub get_trace : String → Provider → Option ExecutionTrace
get_trace trace_id p = lookup trace_id p.traces

unfoldable pub list_traces : ℕ → Provider → List ExecutionTrace
list_traces limit p = take limit (sort newer (values p.traces))

-- The event takes the place of the first one of its id, or the end.
unfoldable pub put_event : TimelineEvent → List TimelineEvent → List TimelineEvent
put_event event [] = event ∷ []
put_event event (item ∷ events) =
    let rest = put_event event events in if item.id == event.id then event ∷ events else item ∷ rest

abbrev pub with_event : TimelineEvent → ExecutionTrace → ExecutionTrace
with_event event trace = record trace {
  timeline =
      some (record (timeline_of trace) { events = put_event event (timeline_of trace).events });
}

-- None stands for the ValueError of a trace that is not there.
unfoldable pub save_timeline_event :
    String → TimelineEvent → Provider → Option TimelineEvent × Provider
save_timeline_event trace_id event p = elim (lookup trace_id p.traces) [
  | none ↦ (none, p)
  | some trace ↦
      (some event, record p { traces = insert trace_id (with_event event trace) p.traces })
]

unfoldable pub get_metrics : Provider → MetricsSnapshot
get_metrics p = record {
  execution_count = p.execution_count;
  failed_count = p.failed_count;
  average_duration =
      if eqb p.execution_count 0 then (0, 1) else (p.duration_total, p.execution_count);
  llm_calls = p.llm_calls;
  tokens = p.tokens;
  queue_size = p.queue_size;
  active_traces = length (select (λ t. is_active t.status) (values p.traces));
  completed_traces = length (select (λ t. is_over t.status) (values p.traces));
}

unfoldable pub record_execution : Bool → ℕ → Provider → Provider
record_execution failed duration p = record p {
  execution_count = suc p.execution_count;
  duration_total = p.duration_total + duration;
  failed_count = if failed then suc p.failed_count else p.failed_count;
}

unfoldable pub record_llm_call : ℕ → Provider → Provider
record_llm_call tokens p = record p { llm_calls = suc p.llm_calls; tokens = p.tokens + tokens }

unfoldable pub set_queue_size : ℕ → Provider → Provider
set_queue_size size p = record p { queue_size = size }
