-- ===== src/Orchestration/NodeRuns.antt =====
-- The session of `Orchestrator.execute`, and what `_run_node` makes of it, one node after another,
-- backend/app/orchestration/orchestrator.py. `none` is an exception.
use ai_employee_os.Common.{
  ℕ, zero, suc, String, ◌<>◌, Bool, true, false, Option, none, some, List, [], ◌∷◌, if◌then◌else◌,
  string_eq, ◌==◌,
}
use ai_employee_os.Common.Dict.{lookup, insert}
use ai_employee_os.Common.Json.{Fields, str}
use ai_employee_os.Planning.Models.{StepStatus, PlanStep, TaskPlan, TaskExecution, put_step}
use ai_employee_os.Planning.Executor.{
  SkillResult, return, raise, Skill, Registry, log, should_retry_step, max_step_retries,
}
use ai_employee_os.Orchestration.Models.{
  Uuid, NodeStatus, ExecutionGraphNode, ExecutionGraph, ExecutionState, ExecutionRecord,
}
use ai_employee_os.Orchestration.Graph.{sync_node_from_plan_step}
use ai_employee_os.Orchestration.Resolver.{error_or}
use ai_employee_os.Orchestration.Scheduler.{mark_completed, mark_failed}

unfoldable pub find_plan_step : List PlanStep → Uuid → Option PlanStep
find_plan_step [] step_id = none
find_plan_step (step ∷ steps) step_id =
    if step.id == step_id then some step else find_plan_step steps step_id

abbrev pub and_then {ℓ κ} : {A : Type ℓ} {B : Type κ} → Option A → (A → Option B) → Option B
and_then none f = none
and_then (some a) f = f a

module _ {World : Type 0} (registry : Registry World)
    (payload_of : PlanStep → TaskPlan → Fields) where
  -- The stored record and the arguments and variables of `execute`
  pub record Session : Type 0 where
    pub stored : ExecutionRecord
    pub plan : TaskPlan
    pub execution : TaskExecution
    pub world : World

  abbrev pub set_graph : ExecutionGraph → Session → Session
  set_graph graph s = record s { stored = record s.stored { graph = graph } }

  abbrev pub set_state : ExecutionState → Session → Session
  set_state state s = record s { stored = record s.stored { state = state } }

  abbrev call : Option (Skill World) → PlanStep → TaskPlan → World → SkillResult × World
  call none step plan world =
      (raise ("No skill registered for capability: " <> step.capability), world)
  call (some skill) step plan world = skill (payload_of step plan) world

  unfoldable pub execute_step : PlanStep → TaskPlan → World → SkillResult × World
  execute_step step plan world = call (registry step.capability) step plan world

  -- A node that is under way.
  pub record NodeRun : Type 0 where
    pub step : PlanStep
    pub node : ExecutionGraphNode
    pub execution : TaskExecution
    pub world : World

  abbrev succeed : ℕ → Fields → NodeRun → NodeRun
  succeed attempt result run = record run {
    step = record run.step { status = StepStatus.completed; result = some result };
    node = record run.node { retry_count = attempt };
    execution =
        log (some run.step.id) "info" ("Step completed: " <> run.step.description) run.execution;
  }

  abbrev fail_attempt : ℕ → String → NodeRun → NodeRun
  fail_attempt attempt exc run = record run {
    step = record run.step { status = StepStatus.failed };
    node = record run.node { error = some exc; retry_count = attempt };
    execution =
        log (some run.step.id) "error" ("Step failed (attempt " <> str attempt <> "): " <> exc)
          run.execution;
  }

  unfoldable pub after : (NodeRun → Bool × NodeRun) → ℕ → SkillResult → NodeRun → Bool × NodeRun
  after again attempt (return result) run = (true, succeed attempt result run)
  after again attempt (raise exc) run =
      let failed = fail_attempt attempt exc run in
      let retry =
        again (record failed { step = record failed.step { status = StepStatus.pending } }) in
      if should_retry_step failed.step attempt then retry else (false, failed)

  unfoldable pub attempts : TaskPlan → ℕ → ℕ → NodeRun → Bool × NodeRun
  attempts plan zero attempt run = (false, run)
  attempts plan (suc left) attempt run =
      let (result, world) = execute_step run.step plan run.world in
      after (attempts plan left (suc attempt)) attempt result (record run { world = world })

  unfoldable pub run_step_with_retry : TaskPlan → NodeRun → Bool × NodeRun
  run_step_with_retry plan run = attempts plan max_step_retries 1 run

  -- What the source changes in place: the step, the node, the log
  abbrev pub stored_run : Uuid → NodeRun → Session → Session
  stored_run node_id run s =
      set_graph (record s.stored.graph { nodes = insert node_id run.node s.stored.graph.nodes })
        (record s {
          plan = record s.plan { steps = put_step run.step s.plan.steps };
          execution = run.execution;
          world = run.world;
        })

  unfoldable pub settle_node : Uuid → Bool → NodeRun → Session → Option Session
  settle_node node_id true run s =
      and_then (mark_completed s.stored.graph node_id run.step.result) (λ graph. some (
        set_graph
          (sync_node_from_plan_step graph run.step.id NodeStatus.completed run.step.result none) s))
  settle_node node_id false run s =
      let error = error_or run.node.error ("Step failed: " <> run.step.description) in
      and_then (mark_failed s.stored.graph node_id error) (λ graph. some (
        set_graph (sync_node_from_plan_step graph run.step.id NodeStatus.failed none (some error))
          s))

  unfoldable pub start_run : ExecutionGraphNode → PlanStep → Session → NodeRun
  start_run node step s = record {
    step = record step { status = StepStatus.running };
    node = node;
    execution =
        log (some step.id) "info" ("Step started: " <> step.description)
          (record s.execution { current_step = some step.id });
    world = s.world;
  }

  unfoldable pub run_step : Uuid → ExecutionGraphNode → Option PlanStep → Session → Option Session
  run_step node_id node none s =
      and_then (mark_failed s.stored.graph node_id ("Plan step not found for node " <> node_id))
        (λ graph. some (set_graph graph s))
  run_step node_id node (some step) s =
      let started = start_run node step s in
      let begun = record s.plan { steps = put_step started.step s.plan.steps } in
      let (success, run) = run_step_with_retry begun started in
      settle_node node_id success run (stored_run node_id run s)

  unfoldable pub run_node : Uuid → Session → Option Session
  run_node node_id s =
      and_then (lookup node_id s.stored.graph.nodes)
        (λ node. run_step node_id node (find_plan_step s.plan.steps node.id) s)

  unfoldable pub gather : List Uuid → Session → Option Session
  gather [] s = some s
  gather (node_id ∷ node_ids) s = and_then (run_node node_id s) (gather node_ids)
