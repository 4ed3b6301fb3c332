-- ===== src/Orchestration/Orchestrator.antt =====
-- `Orchestrator.execute`, backend/app/orchestration/orchestrator.py.
--
-- The payload that a skill is given is a parameter, which Payload fills. `asyncio.gather` runs the
-- nodes one after another. What the API does to the execution during an await happens at its end:
-- the `awaits` of a run say which calls come during each. `none` is an exception that leaves
-- `execute`.
pub mod Paused
pub mod Results
pub mod Safety
use ai_employee_os.Common.{
  ℕ, zero, suc, String, ◌<>◌, Bool, true, false, Option, none, some, List, [], ◌∷◌, length, select,
  if◌then◌else◌, string_eq, ◌==◌,
}
use ai_employee_os.Common.Dict.{lookup, insert}
use ai_employee_os.Common.Json.{Fields, end, field, Json, str}
use ai_employee_os.Planning.Models.{
  PlanStatus, StepStatus, TaskExecutionStatus, PlanStep, TaskPlan, TaskExecution, put_step,
}
use ai_employee_os.Planning.Models
use ai_employee_os.Planning.Executor.{
  SkillResult, return, raise, Skill, Registry, entry, log, should_retry_step, max_step_retries,
}
use ai_employee_os.Orchestration.Models.{
  Uuid, NodeStatus, ExecutionControlStatus, ExecutionGraphNode, ExecutionGraph, ExecutionState,
  ExecutionRecord,
}
use ai_employee_os.Orchestration.Graph.{sync_node_from_plan_step}
use ai_employee_os.Orchestration.Resolver.{get_ready_nodes, is_complete, error_or}
use ai_employee_os.Orchestration.Scheduler.{
  mark_running, mark_completed, mark_failed, mark_cancelled,
}
use ai_employee_os.Orchestration.StateManager.{
  refresh, complete, fail, is_paused_control, is_cancelled_control,
}
use ai_employee_os.Orchestration.Policy.{
  should_continue_execution, should_fail_execution, can_pause, can_resume, can_cancel,
}
use ai_employee_os.Orchestration.Progress.{calculate_progress, build_telegram_progress}
use ai_employee_os.Orchestration.Validator.{validate_graph}
use ai_employee_os.Orchestration.Controls.{paused_record, resumed_record, cancelled_record}
use ai_employee_os.Orchestration.NodeRuns.{and_then, Session, set_graph, set_state, gather}

pub data ApiCall : Type 0 where
  pauses resumes cancels : ApiCall

unfoldable pub api_call : ApiCall → ExecutionRecord → ExecutionRecord
api_call ApiCall.pauses r = if can_pause r.state then paused_record r else r
api_call ApiCall.resumes r = if can_resume r.state then resumed_record r else r
api_call ApiCall.cancels r = if can_cancel r.state then cancelled_record r else r

module _ {World : Type 0} (registry : Registry World)
    (payload_of : PlanStep → TaskPlan → Fields) where
  -- `_sync_store`, the record being stored
  unfoldable pub sync_store : Session registry payload_of → Option (Session registry payload_of)
  sync_store s =
      and_then
        (build_telegram_progress s.stored.state.execution_id s.stored.graph s.stored.state.progress)
        (λ message. some (record s {
          stored = record s.stored {
            task_plan = some s.plan;
            task_execution = some s.execution;
            telegram_progress = some message;
          };
        }))

  unfoldable pub measure : Session registry payload_of → Session registry payload_of
  measure s =
      set_state registry payload_of
        (record (refresh s.stored.state s.stored.graph) {
          progress = calculate_progress s.stored.graph;
        })
        s

  unfoldable pub api_calls :
      List ApiCall → Session registry payload_of → Session registry payload_of
  api_calls [] s = s
  api_calls (c ∷ calls) s = api_calls calls (record s { stored = api_call c s.stored })

  pub data Next : Type 0 where
    continue : Session registry payload_of → Next
    break : Session registry payload_of → Next
    raised : Next

  abbrev pub or_raised : Option (Session registry payload_of) → Next
  or_raised none = raised
  or_raised (some s) = continue s

  -- The rest of the body, for the ready nodes
  unfoldable pub run_ready :
      List ApiCall → List ExecutionGraphNode → Session registry payload_of → Next
  run_ready calls [] s =
      if is_complete s.stored.graph then break s else continue (api_calls calls s)
  run_ready calls (node ∷ nodes) s =
      let (running_ids, graph) = mark_running s.stored.graph (node ∷ nodes) in
      or_raised (
        and_then (sync_store (measure (set_graph registry payload_of graph s))) (λ s1.
          and_then (gather registry payload_of running_ids s1)
            (λ s2. sync_store (measure (api_calls calls s2)))))

  unfoldable pub body : List ApiCall → Session registry payload_of → Next
  body calls s =
      let (ready_nodes, graph) = get_ready_nodes s.stored.graph in
      let running = run_ready calls ready_nodes (set_graph registry payload_of graph s) in
      if is_paused_control s.stored.state.control_status
      then continue (api_calls calls s)
      else (if is_cancelled_control s.stored.state.control_status
          then break (record (set_graph registry payload_of (mark_cancelled s.stored.graph).1 s) {
            execution =
                log none "info" "Execution cancelled"
                  (record s.execution { status = TaskExecutionStatus.cancelled });
          })
          else running)

  abbrev pub first : List (List ApiCall) → List ApiCall
  first [] = []
  first (calls ∷ awaits) = calls

  abbrev pub others : List (List ApiCall) → List (List ApiCall)
  others [] = []
  others (calls ∷ awaits) = awaits

  -- `out_of_fuel` carries the state before the round that there is no fuel for.
  pub data Ended : Type 0 where
    ended : Session registry payload_of → Ended
    failed : Ended
    out_of_fuel : Session registry payload_of → Ended

  abbrev pub and_loop : (Session registry payload_of → Ended) → Next → Ended
  and_loop loop (continue s) = loop s
  and_loop loop (break s) = ended s
  and_loop loop raised = failed

  unfoldable pub loop : ℕ → List (List ApiCall) → Session registry payload_of → Ended
  loop zero awaits s =
      if should_continue_execution s.stored.state s.stored.graph then out_of_fuel s else ended s
  loop (suc fuel) awaits s =
      let again = and_loop (loop fuel (others awaits)) (body (first awaits) s) in
      if should_continue_execution s.stored.state s.stored.graph then again else ended s

  -- The error of the first failed node. A message of None is refused.
  abbrev pub failure_reason : ExecutionGraph → List Uuid → Option String
  failure_reason graph [] = some "One or more steps failed"
  failure_reason graph (node_id ∷ node_ids) =
      and_then (lookup node_id graph.nodes) (λ node. node.error)

  unfoldable pub conclude_failed :
      Session registry payload_of → Option (Session registry payload_of)
  conclude_failed s =
      and_then (failure_reason s.stored.graph s.stored.state.failed_nodes) (λ reason. some (
        set_state registry payload_of (fail s.stored.state (some reason)) (record s {
          plan = record s.plan { status = PlanStatus.failed };
          execution =
              log none "error" reason (record s.execution { status = TaskExecutionStatus.failed });
        })))

  unfoldable pub conclude_completed : Session registry payload_of → Session registry payload_of
  conclude_completed s = set_state registry payload_of (complete s.stored.state) (record s {
    plan = record s.plan { status = PlanStatus.completed };
    execution = record s.execution { status = TaskExecutionStatus.completed };
  })

  -- After the loop
  unfoldable pub conclude : Session registry payload_of → Option (Session registry payload_of)
  conclude s =
      if is_cancelled_control s.stored.state.control_status
      then some
          (record s { execution = record s.execution { status = TaskExecutionStatus.cancelled } })
      else (if should_fail_execution s.stored.state s.stored.graph
          then conclude_failed s
          else some (conclude_completed s))

  unfoldable pub results_of : Session registry payload_of → Fields
  results_of s =
      let progress = s.stored.state.progress in
      field "goal" (Json.string s.plan.goal) (
        field "summary" (Json.string s.plan.summary) (
          field "steps_completed"
            (Json.number
              (str (length (select (λ step. Models.is_completed step.status) s.plan.steps))))
            (field "steps_failed"
              (Json.number
                (str (length (select (λ step. Models.is_failed step.status) s.plan.steps))))
              (field "progress" (Json.number (str progress.done <> "/" <> str progress.total))
                end))))

  unfoldable pub report : Session registry payload_of → Option (Session registry payload_of)
  report s =
      let s' = record s {
        execution = record s.execution { current_step = none; results = results_of s };
      } in
      sync_store (
        set_state registry payload_of
          (record s.stored.state { progress = calculate_progress s.stored.graph }) s')

  unfoldable pub start_session :
      ExecutionGraph → TaskPlan → ExecutionState → String → World → Session registry payload_of
  start_session graph plan state trace_id world = record {
    stored = record {
      execution_id = state.execution_id;
      trace_id = trace_id;
      graph = graph;
      state = state;
      task_plan = none;
      task_execution = none;
      telegram_progress = none;
    };
    plan = record plan { status = PlanStatus.ready };
    execution = record {
      task_id = plan.id;
      plan_id = some plan.id;
      current_step = none;
      status = TaskExecutionStatus.running;
      logs = entry none "info" ("Orchestrated execution started for plan " <> plan.id) ∷ [];
      results = end;
    };
    world = world;
  }

  abbrev pub finish : Ended → Ended
  finish (ended s) = elim (and_then (conclude s) report) [ none ↦ failed | some s' ↦ ended s' ]
  finish failed = failed
  finish (out_of_fuel s) = out_of_fuel s

  unfoldable pub execute :
      ℕ → List (List ApiCall) → ExecutionGraph → TaskPlan → ExecutionState → String → World → Ended
  execute fuel awaits graph plan state trace_id world = elim (validate_graph graph) [
    | some error ↦ failed
    | none ↦ elim (sync_store (start_session graph plan state trace_id world)) [
      | none ↦ failed
      | some s ↦ finish (loop fuel awaits s)
    ]
  ]
