-- ===== src/Observability/Tracer/Executions.antt =====
-- An execution that is started and finished.
use ai_employee_os.Common.{
  ℕ, suc, ◌-◌, ◌≤◌, ◌≡◌, refl, subst, option-by, String, true, Option, some, All, leb, string_eq,
  if◌then◌else◌,
}
use ai_employee_os.Common.Json.{Fields}
use ai_employee_os.Common.Dict.{lookup}
use ai_employee_os.Observability.Models.{TraceStatus, ExecutionTrace, is_failed}
use ai_employee_os.Observability.Provider.{
  Provider, save_trace, get_trace, record_execution, with_timeline,
}
use ai_employee_os.Observability.Provider.Retention.{
  IsRetained, enforce-IsRetained, lookup-enforce_saved, lookup-enforce_again,
}
use ai_employee_os.Observability.Tracer.{start, finish, new_trace, finished_trace}

get_trace-start :
    (now : ℕ) (trace_id execution_id : String) (metadata : Fields) (p : Provider)
    → 1 ≤ p.max_traces
    → IsRetained p.max_traces p.traces
    → All (λ (_, t). leb t.started_at now ≡ true) p.traces
    → get_trace trace_id (start now trace_id execution_id metadata p).1
      ≡ some (new_trace now trace_id execution_id metadata)
unfolding get_trace start save_trace
get_trace-start now trace_id execution_id metadata p positive r old =
    lookup-enforce_saved p.max_traces (new_trace now trace_id execution_id metadata) p.traces
      positive r old

get_trace-finish :
    (later : ℕ) (trace : ExecutionTrace) (status : TraceStatus) (metadata : Fields) (p : Provider)
    → IsRetained p.max_traces p.traces
    → get_trace trace.trace_id p ≡ some trace
    → let done = with_timeline (finished_trace later status metadata trace) in
      let (reply, q) = finish later trace.trace_id status metadata p in
      (reply ≡ some done)
      × (get_trace trace.trace_id q ≡ some done)
      × (q.execution_count ≡ suc p.execution_count)
      × (q.failed_count ≡ (if is_failed status then suc p.failed_count else p.failed_count))
unfolding finish record_execution save_trace get_trace
get_trace-finish later trace status metadata p r found =
    let done = with_timeline (finished_trace later status metadata trace) in
    let P : Option ExecutionTrace × Provider → Type 0 = λ x.
      (x.0 ≡ some done)
      × (get_trace trace.trace_id x.1 ≡ some done)
      × (x.1.execution_count ≡ suc p.execution_count)
      × (x.1.failed_count ≡ (if is_failed status then suc p.failed_count else p.failed_count)) in
    option-by P (lookup trace.trace_id p.traces) (λ missing. cc)
      (λ there again.
        let same : trace ≡ there = cc in
        subst
          (λ (t : ExecutionTrace). P (
            some (with_timeline (finished_trace later status metadata t)),
            record_execution (is_failed status) (later - t.started_at)
                (save_trace (finished_trace later status metadata t) p).1,
          ))
          same
          (refl, lookup-enforce_again p.max_traces done p.traces r (λ missing. cc), refl, refl))

-- An execution is started, later than those that the provider knows, and finished. It is found then
-- as it ended, with the time it took, and is counted: once, and as failed exactly if it failed.
pub finish-start :
    (now later : ℕ) (trace_id execution_id : String) (status : TraceStatus) (metadata more : Fields)
    (p : Provider)
    → 1 ≤ p.max_traces
    → IsRetained p.max_traces p.traces
    → All (λ (_, t). leb t.started_at now ≡ true) p.traces
    → let (done, q) =
        finish later trace_id status more (start now trace_id execution_id metadata p).1 in
      (trace : ExecutionTrace) × (done ≡ some trace)
      × (get_trace trace_id q ≡ some trace)
      × (trace.status ≡ status)
      × (trace.finished_at ≡ some later)
      × (trace.duration ≡ some (later - now))
      × (trace.execution_id ≡ execution_id)
      × (q.execution_count ≡ suc p.execution_count)
      × (q.failed_count ≡ (if is_failed status then suc p.failed_count else p.failed_count))
unfolding start save_trace
finish-start now later trace_id execution_id status metadata more p positive r old =
    let trace = new_trace now trace_id execution_id metadata in
    let (found, stored, counted, failures) =
      get_trace-finish later trace status more (start now trace_id execution_id metadata p).1
        (enforce-IsRetained p.max_traces trace p.traces r)
        (get_trace-start now trace_id execution_id metadata p positive r old) in
    (_, found, stored, refl, refl, refl, refl, counted, failures)
