-- ===== src/Orchestration/Tests.antt =====
-- A run of the orchestrator on a plan of two steps.
use ai_employee_os.Common.{
  if◌then◌else◌, ◌==◌, arith, All, inl, ℕ, zero, suc, ◌≡◌, refl, String, true, Option, none, some,
  List, [], ◌∷◌, map, string_eq,
}
use ai_employee_os.Common.Json.{
  get_field, set_field, update_fields, Json, field, Uuid, Fields, end, str,
}
use ai_employee_os.Common.Dict.{Dict, lookup, insert, values, keys}
use ai_employee_os.Planning.Models.{
  PlanStatus, StepStatus, TaskExecutionStatus, PlanStep, TaskPlan, put_step,
}
use ai_employee_os.Planning.Ordering.{pass, rounds, order}
use ai_employee_os.Planning.Executor.{return, raise, Skill, Registry, should_retry_step}
use ai_employee_os.Orchestration.Models.{
  NodeStatus, ExecutionControlStatus, ExecutionGraph, ids_with, each_node,
}
use ai_employee_os.Orchestration.Graph.{
  node_of, add_step, add_steps, topological_order, build_execution_graph, sync_node_from_plan_step,
}
use ai_employee_os.Orchestration.Resolver.{
  resolve_node, resolve_nodes, resolve, get_ready_nodes, is_complete,
}
use ai_employee_os.Orchestration.Scheduler.{
  mark_running_in, mark_running, mark_completed, mark_failed, mark_cancelled, mark_paused,
  resume_paused,
}
use ai_employee_os.Orchestration.StateManager.{
  create_state, refresh, pause, resume, cancel, complete, fail,
}
use ai_employee_os.Orchestration.Policy.{
  some_pending, should_continue_execution, should_fail_execution, can_resume, can_pause, can_cancel,
}
use ai_employee_os.Orchestration.Progress.{
  calculate_progress, progress_line, progress_lines, build_telegram_progress,
}
use ai_employee_os.Orchestration.Validator.{
  check_dependencies, check_nodes, visit_all, visit, has_cycle, validate_graph,
}
use ai_employee_os.Orchestration.Controls.{
  refreshed, paused_record, resumed_record, cancelled_record,
}
use ai_employee_os.Orchestration.NodeRuns.{
  Session, find_plan_step, execute_step, after, attempts, run_step_with_retry, settle_node,
  start_run, run_step, run_node, gather,
}
use ai_employee_os.Orchestration.Orchestrator.{
  ApiCall, Ended, ended, api_call, sync_store, measure, api_calls, run_ready, body, loop,
  conclude_failed, conclude_completed, conclude, results_of, report, start_session, execute,
  out_of_fuel,
}
use ai_employee_os.Orchestration.Payload.{
  user_goal, base_payload, merge_source, merge_attachment_fields, completed_results, take_keys,
  take_result, take_results, enrich_payload_from_plan, payload_for,
}
use ai_employee_os.Orchestration.Payload.Merge.{latest, get_field-take_results}
use ai_employee_os.Orchestration.Validator.Accepted.{IsProper, IsGrounded, validate_graph-IsProper}
use ai_employee_os.Orchestration.Validator.Acyclic.{validate_graph-none}
use ai_employee_os.Orchestration.Safety.{IsSound}
use ai_employee_os.Orchestration.Orchestrator.Safety.{execute-IsSound}
use ai_employee_os.Orchestration.Orchestrator.Paused.{paused-completed}

abbrev step : String → List Uuid → PlanStep
step id dependencies = record {
  id = id;
  description = "step";
  capability = "writing";
  dependencies = dependencies;
  status = StepStatus.pending;
  result = none;
}

abbrev plan : TaskPlan
plan = record {
  id = "p";
  goal = "goal";
  summary = "summary";
  steps = step "b" ("a" ∷ []) ∷ step "a" [] ∷ [];
  required_capabilities = [];
  status = PlanStatus.draft;
}

abbrev flaky : Skill ℕ
flaky payload zero = (return end, zero)
flaky payload (suc n) = (raise "busy", n)

abbrev registry : Registry ℕ
registry capability = some flaky

abbrev payload_of : PlanStep → TaskPlan → Fields
payload_of _ _ = end

abbrev graph : ExecutionGraph
graph = build_execution_graph "g" plan

abbrev run : List (List ApiCall) → ℕ → Ended registry payload_of
run awaits world =
    execute registry payload_of 3 awaits graph plan (create_state "e" graph) "-" world

abbrev verdict : Ended registry payload_of → Option (TaskExecutionStatus × List NodeStatus)
verdict (ended s) = some (s.execution.status, map (λ (_, node). node.status) s.stored.graph.nodes)
verdict _ = none

unfoldable program : Unit {0}
unfolding pass rounds order put_step should_retry_step ids_with each_node node_of add_step add_steps
    topological_order build_execution_graph sync_node_from_plan_step resolve_node resolve_nodes
    resolve get_ready_nodes is_complete mark_running_in mark_running mark_completed mark_failed
    mark_cancelled mark_paused resume_paused create_state refresh pause resume cancel complete fail
    should_continue_execution should_fail_execution can_resume can_pause can_cancel
    calculate_progress progress_line progress_lines build_telegram_progress check_dependencies
    check_nodes visit_all visit has_cycle validate_graph refreshed paused_record resumed_record
    cancelled_record api_call find_plan_step execute_step after attempts run_step_with_retry
    settle_node start_run run_step run_node gather sync_store measure api_calls run_ready body loop
    conclude_failed conclude_completed conclude results_of report start_session execute string_eq
    str lookup insert values keys
program = tt

completes :
    verdict (run [] 2)
    ≡ some (TaskExecutionStatus.completed, NodeStatus.completed ∷ NodeStatus.completed ∷ [])
unfolding program
completes = refl

fails :
    verdict (run [] 3)
    ≡ some (TaskExecutionStatus.failed, NodeStatus.failed ∷ NodeStatus.failed ∷ [])
unfolding program
fails = refl

is_cancelled :
    verdict (run ((ApiCall.cancels ∷ []) ∷ []) 0)
    ≡ some (TaskExecutionStatus.cancelled, NodeStatus.cancelled ∷ NodeStatus.completed ∷ [])
unfolding program
is_cancelled = refl

-- Paused during the first node, the execution is reported as completed.
pauses :
    verdict (run ((ApiCall.pauses ∷ []) ∷ []) 0)
    ≡ some (TaskExecutionStatus.completed, NodeStatus.paused ∷ NodeStatus.completed ∷ [])
unfolding program
pauses = refl

abbrev paused_session : Session registry payload_of
paused_session =
    api_calls registry payload_of (ApiCall.pauses ∷ [])
      (start_session registry payload_of graph plan (create_state "e" graph) "-" 0)

paused-completed_example :
    (loop registry payload_of 3 [] paused_session ≡ ended paused_session)
    × (out : Session registry payload_of) × (conclude registry payload_of paused_session ≡ some out)
    × (out.execution.status ≡ TaskExecutionStatus.completed)
    × (out.plan.status ≡ PlanStatus.completed)
    × (out.stored.state.control_status ≡ ExecutionControlStatus.completed)
    × (some_pending out.stored.graph.nodes ≡ true)
unfolding program
paused-completed_example = paused-completed registry payload_of 3 [] paused_session refl refl

abbrev session_of : Ended registry payload_of → Session registry payload_of
session_of (ended s) = s
session_of (out_of_fuel s) = s
session_of _ = paused_session

execute-IsSound_example :
    IsSound (session_of (run ((ApiCall.pauses ∷ []) ∷ []) 0)).stored.graph.nodes
unfolding program
execute-IsSound_example =
    execute-IsSound registry payload_of 3 ((ApiCall.pauses ∷ []) ∷ []) "g" plan
      (create_state "e" graph) "-" 0 (session_of (run ((ApiCall.pauses ∷ []) ∷ []) 0)) (inl refl)

-- Payloads
abbrev named : String → String → Fields
named key value = field key (Json.string value) end

abbrev results : Dict Uuid Fields
results = ("a", named "filename" "a.txt") ∷ ("b", named "artifact_id" "7") ∷ []

unfoldable payloads : Unit {0}
unfolding get_field set_field update_fields user_goal base_payload merge_source
    merge_attachment_fields completed_results take_keys take_result take_results
    enrich_payload_from_plan payload_for string_eq lookup insert
payloads = tt

goal_from_input :
    get_field "goal" (payload_for (named "user_input" "sell") "-" (step "a" []) plan)
    ≡ some (Json.string "sell")
unfolding payloads
goal_from_input = refl

get_field-take_results_example :
    get_field "filename" (take_results results ("a" ∷ "b" ∷ []) (named "filename" "own.txt"))
    ≡ latest "filename" results ("a" ∷ "b" ∷ []) (some (Json.string "own.txt"))
unfolding payloads
get_field-take_results_example =
    get_field-take_results "filename" refl refl results ("a" ∷ "b" ∷ [])
      (named "filename" "own.txt")

validate_graph-IsProper_example :
    All (λ e. All (IsProper (keys graph.nodes) e.0) e.1.dependencies) graph.nodes
    × All (λ id. IsGrounded graph.nodes id) (keys graph.nodes)
unfolding program
validate_graph-IsProper_example = validate_graph-IsProper graph refl

-- A plan of the parser whose step depends on itself is refused.
self_dependency_refused :
    validate_graph (build_execution_graph "g" (record plan { steps = step "a" ("a" ∷ []) ∷ [] }))
    ≡ some "Node a cannot depend on itself"
unfolding program
self_dependency_refused = refl

abbrev rank : Uuid → ℕ
rank id = if id == "a" then 0 else 1

validate_graph-none_example : validate_graph graph ≡ none
unfolding program
validate_graph-none_example =
    validate_graph-none rank graph (omega arith, (omega arith, tt))
      (((omega arith, refl), tt), (tt, tt))
