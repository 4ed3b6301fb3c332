-- ===== src/Observability/Tracer/Calls.antt =====
-- The manager's calls (backend/app/observability/manager.py) as data, and what all of them keep.
use ai_employee_os.Common.{
  ℕ, suc, ◌≤◌, ◌≡◌, sym, subst, String, Bool, Option, none, some, List, [], ◌∷◌, arith, option-by,
  if-both, string_eq,
}
use ai_employee_os.Common.Json.{Fields, end}
use ai_employee_os.Common.Dict.{lookup, length-insert_old, insert-NodupKeys, All-insert, All-lookup}
use ai_employee_os.Observability.Models.{
  TraceStatus, TimelineEventStatus, TimelineEvent, ExecutionTrace,
}
use ai_employee_os.Observability.Provider.{
  Provider, save_trace, get_trace, save_timeline_event, record_execution, record_llm_call,
  set_queue_size, with_timeline, with_event,
}
use ai_employee_os.Observability.Provider.Retention.{IsRetained, IsOwn, enforce-IsRetained}
use ai_employee_os.Observability.Tracer.{Recorder, start, finish, start_node, finish_node, opened}

pub data Call : Type 0 where
  starts : (now : ℕ) (trace_id execution_id : String) (metadata : Fields) → Call
  finishes : (now : ℕ) (trace_id : String) (status : TraceStatus) (metadata : Fields) → Call
  starts_node : (now : ℕ) (id trace_id node_name : String) → Call
  finishes_node : (now : ℕ) (id trace_id node_name : String) (status : TimelineEventStatus) → Call
  calls_model : (tokens : ℕ) → Call
  sets_queue : (size : ℕ) → Call

unfoldable pub perform : Call → Recorder → Recorder
perform (Call.starts now trace_id execution_id metadata) r = record r {
  provider = (start now trace_id execution_id metadata r.provider).1;
}
perform (Call.finishes now trace_id status metadata) r = record r {
  provider = (finish now trace_id status metadata r.provider).1;
}
perform (Call.starts_node now id trace_id node_name) r =
    (start_node now id trace_id node_name end r).1
perform (Call.finishes_node now id trace_id node_name status) r =
    (finish_node now id trace_id node_name status end r).1
perform (Call.calls_model tokens) r = record r { provider = record_llm_call tokens r.provider }
perform (Call.sets_queue size) r = record r { provider = set_queue_size size r.provider }

unfoldable pub after_calls : List Call → Recorder → Recorder
after_calls [] r = r
after_calls (call ∷ calls) r = after_calls calls (perform call r)

-- As many traces as are allowed at most, each once and under its own id, and no more failures than
-- executions
pub record IsKept (max_traces : ℕ) (p : Provider) : Type 0 where
  pub limit : p.max_traces ≡ max_traces
  pub retained : IsRetained p.max_traces p.traces
  pub failures : p.failed_count ≤ p.execution_count

module _ (m : ℕ) where
  save_trace-IsKept :
      (trace : ExecutionTrace) (p : Provider) → IsKept m p → IsKept m (save_trace trace p).1
  unfolding save_trace
  save_trace-IsKept trace p k = record {
    limit = k.limit;
    retained = enforce-IsRetained p.max_traces (with_timeline trace) p.traces k.retained;
    failures = k.failures;
  }

  record_execution-IsKept :
      (failed : Bool) (duration : ℕ) (p : Provider)
      → IsKept m p
      → IsKept m (record_execution failed duration p)
  unfolding record_execution
  record_execution-IsKept failed duration p k = record {
    limit = k.limit;
    retained = k.retained;
    failures =
        if-both (λ n. n ≤ suc p.execution_count) failed (omega (arith, k.failures))
          (omega (arith, k.failures));
  }

  finish-IsKept :
      (now : ℕ) (trace_id : String) (status : TraceStatus) (metadata : Fields) (p : Provider)
      → IsKept m p
      → IsKept m (finish now trace_id status metadata p).1
  unfolding finish
  finish-IsKept now trace_id status metadata p k =
      option-by (λ (x : Option ExecutionTrace × Provider). IsKept m x.1) (get_trace trace_id p)
        (λ _. k) (λ trace _. record_execution-IsKept _ _ _ (save_trace-IsKept _ p k))

  save_timeline_event-IsKept :
      (trace_id : String) (event : TimelineEvent) (p : Provider)
      → IsKept m p
      → IsKept m (save_timeline_event trace_id event p).1
  unfolding save_timeline_event
  save_timeline_event-IsKept trace_id event p k =
      option-by (λ (x : Option TimelineEvent × Provider). IsKept m x.1) (lookup trace_id p.traces)
        (λ _. k)
        (λ trace found. record {
          limit = k.limit;
          retained = record {
            bounded =
                subst (λ n. n ≤ p.max_traces)
                  (sym
                    (length-insert_old trace_id (with_event event trace) p.traces (λ missing. cc)))
                  k.retained.bounded;
            distinct =
                insert-NodupKeys trace_id (with_event event trace) p.traces k.retained.distinct;
            own =
                All-insert IsOwn trace_id (with_event event trace) p.traces
                  (All-lookup IsOwn trace_id trace p.traces k.retained.own found) k.retained.own;
          };
          failures = k.failures;
        })

  opened-IsKept :
      (trace_id node_name : String) (r : Recorder) (x : Option TimelineEvent × Provider)
      → IsKept m x.1
      → IsKept m (opened trace_id node_name r x).1.provider
  opened-IsKept trace_id node_name r (none, p) k = k
  opened-IsKept trace_id node_name r (some event, p) k = k

  perform-IsKept :
      (call : Call) (r : Recorder) → IsKept m r.provider → IsKept m (perform call r).provider
  unfolding perform start start_node finish_node record_llm_call set_queue_size
  perform-IsKept (Call.starts now trace_id execution_id metadata) r k =
      save_trace-IsKept _ r.provider k
  perform-IsKept (Call.finishes now trace_id status metadata) r k =
      finish-IsKept now trace_id status metadata r.provider k
  perform-IsKept (Call.starts_node now id trace_id node_name) r k =
      opened-IsKept trace_id node_name r _ (save_timeline_event-IsKept trace_id _ r.provider k)
  perform-IsKept (Call.finishes_node now id trace_id node_name status) r k =
      save_timeline_event-IsKept trace_id _ r.provider k
  perform-IsKept (Call.calls_model tokens) r k = record {
    limit = k.limit;
    retained = k.retained;
    failures = k.failures;
  }
  perform-IsKept (Call.sets_queue size) r k = record {
    limit = k.limit;
    retained = k.retained;
    failures = k.failures;
  }

-- Whatever is asked of the manager: where the provider has at most as many traces as its retention
-- allows, each once and under its own id, and no more failures than executions, it has so
-- afterwards, under the same retention.
pub after_calls-IsKept :
    (m : ℕ) (calls : List Call) (r : Recorder)
    → IsKept m r.provider
    → IsKept m (after_calls calls r).provider
unfolding after_calls
after_calls-IsKept m [] r k = k
after_calls-IsKept m (call ∷ calls) r k =
    after_calls-IsKept m calls (perform call r) (perform-IsKept m call r k)
