-- ===== src/Orchestration/Orchestrator/Safety.antt =====
-- No node of an execution begins before its dependencies are completed.
pub mod Calls
pub mod Writes
pub mod Rounds
use ai_employee_os.Common.{
  ℕ, zero, suc, ◌≡◌, ◌≢◌, refl, sym, ap, subst, ◌∙◌, Bool, true, false, inl, inr, ◌⊎◌, Option, none,
  some, List, [], ◌∷◌, arith, String, ◌<>◌, if◌then◌else◌, contains, string_eq, ◌==◌, ==→eq,
  ==_refl, All, All-map, Bool-cases, Option-cases,
}
use ai_employee_os.Common.Json.{Fields}
use ai_employee_os.Common.Dict.{
  lookup, insert, lookup-insert, lookup-insert_self, lookup-insert_ne, insert-insert, All-lookup,
  NodupKeys, insert-NodupKeys, All-insert,
}
use ai_employee_os.Planning.Models.{StepStatus, PlanStep, TaskPlan, put_step}
use ai_employee_os.Planning.Executor.{
  Registry, SkillResult, return, raise, should_retry_step, max_step_retries,
}
use ai_employee_os.Orchestration.Models.{
  Uuid, NodeStatus, ExecutionGraphNode, Nodes, ExecutionGraph, ExecutionState, ExecutionRecord,
  is_completed, is_open, is_paused, is_failed_or_cancelled, is_waiting_or_ready, ids_with,
  each_node,
}
use ai_employee_os.Orchestration.Graph.{
  sync_node_from_plan_step, node_of, add_step, add_steps, build_execution_graph,
}
use ai_employee_os.Orchestration.Validator.{validate_graph}
use ai_employee_os.Orchestration.Scheduler.{
  mark_running, mark_running_in, mark_completed, mark_failed, mark_cancelled, mark_paused,
  resume_paused,
}
use ai_employee_os.Orchestration.Resolver.{
  resolve, get_ready_nodes, is_complete, resolve_nodes, error_or,
}
use ai_employee_os.Orchestration.Controls.{
  refreshed, paused_record, resumed_record, cancelled_record,
}
use ai_employee_os.Orchestration.Progress.{build_telegram_progress}
use ai_employee_os.Orchestration.Policy.{should_continue_execution, should_fail_execution}
use ai_employee_os.Orchestration.StateManager.{
  is_paused_control, is_cancelled_control, complete, fail,
}
use ai_employee_os.Orchestration.Safety.{
  has_begun, IsSound, insert-IsSound, each_node-IsSound, mark-IsMild, resolve_node-IsMild,
}
use ai_employee_os.Orchestration.Safety.Ready.{IsDistinct}
use ai_employee_os.Orchestration.Safety.Running.{
  IsRunningAt, IsStarted, start_ready-IsStarted, resolve_nodes-IsSound,
}
use ai_employee_os.Orchestration.NodeRuns.{
  and_then, find_plan_step, Session, NodeRun, execute_step, after, attempts, run_step_with_retry,
  stored_run, settle_node, start_run, run_step, run_node, gather, set_graph, set_state,
}
use ai_employee_os.Orchestration.Orchestrator.{
  ApiCall, api_call, Next, Ended, ended, failed, out_of_fuel, sync_store, measure, api_calls,
  run_ready, body, loop, conclude, conclude_failed, conclude_completed, report, start_session,
  execute, or_raised, and_loop, failure_reason, finish,
}
use ai_employee_os.Orchestration.Orchestrator.Results.{
  OnSome, OnSome-map, and_then-OnSome, always-OnSome, IsSoundIn,
}
use ai_employee_os.Orchestration.Orchestrator.Safety.Rounds.{
  NextSound, body-NextSound, sync_store-IsSound,
}

-- A new graph
IsFresh : Nodes → Type 0
IsFresh nodes =
    NodupKeys nodes
    × All (λ e. e.1.id ≡ e.0) nodes
    × All (λ e. e.1.status ≡ NodeStatus.waiting) nodes

add_steps-IsFresh :
    (graph : ExecutionGraph) (steps : List PlanStep)
    → IsFresh graph.nodes
    → IsFresh (add_steps graph steps).nodes
unfolding add_steps add_step node_of IsFresh
add_steps-IsFresh graph [] h = h
add_steps-IsFresh graph (step ∷ steps) (nodup, keyed, waits) =
    add_steps-IsFresh (add_step graph step) steps (
      insert-NodupKeys step.id (node_of step) graph.nodes nodup,
      All-insert (λ e. e.1.id ≡ e.0) step.id (node_of step) graph.nodes refl keyed,
      All-insert (λ e. e.1.status ≡ NodeStatus.waiting) step.id (node_of step) graph.nodes refl
          waits,
    )

IsFresh-IsSound : (nodes : Nodes) → IsFresh nodes → IsSound nodes
unfolding IsFresh
IsFresh-IsSound nodes (nodup, keyed, waits) = record {
  nodup = nodup;
  keyed = keyed;
  safe =
      All-map
        (λ e waiting begun.
          let bad : has_begun NodeStatus.waiting ≡ true = rw waiting at begun in cc)
        nodes waits;
}

build-IsSound :
    (graph_id : Uuid) (plan : TaskPlan) → IsSound (build_execution_graph graph_id plan).nodes
unfolding build_execution_graph IsFresh
build-IsSound graph_id plan = IsFresh-IsSound _ (add_steps-IsFresh _ plan.steps (tt, tt, tt))

module _ {World : Type 0} (registry : Registry World)
    (payload_of : PlanStep → TaskPlan → Fields) where
  abbrev S : Type 0
  S = Session registry payload_of

  -- What an ended run leaves
  abbrev EndedSound : Ended registry payload_of → Type 0
  EndedSound (ended s) = IsSoundIn s
  EndedSound failed = Unit
  EndedSound (out_of_fuel s) = IsSoundIn s

  and_loop-EndedSound :
      (again : S → Ended registry payload_of) (next : Next registry payload_of)
      → NextSound registry payload_of next
      → ((s : S) → IsSoundIn s → EndedSound (again s))
      → EndedSound (and_loop registry payload_of again next)
  and_loop-EndedSound again (Next.continue s) h k = k s h
  and_loop-EndedSound again (Next.break s) h k = h
  and_loop-EndedSound again Next.raised h k = tt

  loop-EndedSound :
      (fuel : ℕ) (awaits : List (List ApiCall)) (s : S)
      → IsSoundIn s
      → EndedSound (loop registry payload_of fuel awaits s)
  unfolding loop
  loop-EndedSound zero awaits s sound =
      elim (Bool-cases (should_continue_execution s.stored.state s.stored.graph)) [
        | inl more ↦ rw more sound
        | inr over ↦ rw over sound
      ]
  loop-EndedSound (suc fuel) awaits s sound =
      elim (Bool-cases (should_continue_execution s.stored.state s.stored.graph)) [
        | inl more ↦ rw more (
            and_loop-EndedSound _ _ (body-NextSound registry payload_of _ s sound)
              (λ s' h. loop-EndedSound fuel _ s' h))
        | inr over ↦ rw over sound
      ]

  conclude-IsSound : (s : S) → IsSoundIn s → OnSome IsSoundIn (conclude registry payload_of s)
  unfolding conclude conclude_failed conclude_completed IsSoundIn
  conclude-IsSound s sound =
      elim (Bool-cases (is_cancelled_control s.stored.state.control_status)) [
        | inl over ↦ rw over sound
        | inr on ↦ elim (Bool-cases (should_fail_execution s.stored.state s.stored.graph)) [
          | inl fails ↦
              rw (on, fails)
                (always-OnSome IsSoundIn
                  (failure_reason registry payload_of s.stored.graph s.stored.state.failed_nodes) _
                  (λ _. sound))
          | inr ends ↦ rw (on, ends) sound
        ]
      ]

  report-IsSound : (s : S) → IsSoundIn s → OnSome IsSoundIn (report registry payload_of s)
  unfolding report IsSoundIn
  report-IsSound s sound = sync_store-IsSound registry payload_of _ sound

  closed-EndedSound :
      (o : Option S) → OnSome IsSoundIn o → EndedSound (elim o [ none ↦ failed | some s ↦ ended s ])
  closed-EndedSound none h = tt
  closed-EndedSound (some s) h = h

  finish-EndedSound :
      (e : Ended registry payload_of) → EndedSound e → EndedSound (finish registry payload_of e)
  finish-EndedSound (ended s) h =
      closed-EndedSound (and_then (conclude registry payload_of s) (report registry payload_of)) (
        and_then-OnSome IsSoundIn IsSoundIn (conclude registry payload_of s)
          (report registry payload_of) (conclude-IsSound s h) report-IsSound)
  finish-EndedSound failed h = tt
  finish-EndedSound (out_of_fuel s) h = h

  begun-EndedSound :
      (fuel : ℕ) (awaits : List (List ApiCall)) (o : Option S)
      → OnSome IsSoundIn o
      → EndedSound (elim o [
        | none ↦ failed
        | some s ↦ finish registry payload_of (loop registry payload_of fuel awaits s)
      ])
  begun-EndedSound fuel awaits none h = tt
  begun-EndedSound fuel awaits (some s) h =
      finish-EndedSound (loop registry payload_of fuel awaits s) (loop-EndedSound fuel awaits s h)

  execute-EndedSound :
      (fuel : ℕ) (awaits : List (List ApiCall)) (graph : ExecutionGraph) (plan : TaskPlan)
      (state : ExecutionState) (trace_id : String) (world : World)
      → IsSound graph.nodes
      → EndedSound (execute registry payload_of fuel awaits graph plan state trace_id world)
  unfolding execute start_session IsSoundIn
  execute-EndedSound fuel awaits graph plan state trace_id world sound =
      elim (Option-cases (validate_graph graph)) [
        | inr (e, refused) ↦ rw (refused, execute) tt
        | inl valid ↦
            rw (valid, execute)
              (begun-EndedSound fuel awaits
                (sync_store registry payload_of
                  (start_session registry payload_of graph plan state trace_id world))
                (sync_store-IsSound registry payload_of _ sound))
      ]

  EndedSound-of :
      (e : Ended registry payload_of) (out : S)
      → (e ≡ ended out) ⊎ (e ≡ out_of_fuel out)
      → EndedSound e
      → IsSound out.stored.graph.nodes
  unfolding IsSoundIn
  EndedSound-of e out (inl is) h = rw is at h
  EndedSound-of e out (inr is) h = rw is at h

  -- After any number of rounds of an execution of a plan's graph, and when it has ended, each node
  -- stands once under its own id, and the dependencies of every node that is ready, running or
  -- completed are completed, whatever the skills do and the API calls.
  pub execute-IsSound :
      (fuel : ℕ) (awaits : List (List ApiCall)) (graph_id : Uuid) (plan : TaskPlan)
      (state : ExecutionState) (trace_id : String) (world : World) (out : S)
      → let e =
          execute registry payload_of fuel awaits
            (build_execution_graph graph_id plan)
            plan
            state
            trace_id
            world in
        (e ≡ ended out) ⊎ (e ≡ out_of_fuel out) → IsSound out.stored.graph.nodes
  execute-IsSound fuel awaits graph_id plan state trace_id world out is = EndedSound-of _ out is (
      execute-EndedSound fuel awaits (build_execution_graph graph_id plan) plan state trace_id world
        (build-IsSound graph_id plan))
