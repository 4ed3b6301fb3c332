-- ===== src/Planning/Executor.antt =====
-- backend/app/planning/executor.py and planning/policies/execution_policy.py. The registry and the
-- skills are parameters: a skill is given its payload and the state of the world that it works on.
use ai_employee_os.Common.{
  ℕ, zero, suc, String, ◌<>◌, Bool, true, false, Option, none, some, List, [], ◌∷◌, ◌++◌, ltb,
  if◌then◌else◌, contains, string_eq, all, select, length,
}
use ai_employee_os.Common.Json.{Fields, end, field, Json, str}
use ai_employee_os.Planning.Models.{
  Uuid, PlanStatus, StepStatus, TaskExecutionStatus, PlanStep, TaskPlan, ExecutionLogEntry,
  TaskExecution, is_completed, is_failed, put_step,
}
use ai_employee_os.Planning.Ordering.{order}

abbrev pub max_step_retries : ℕ
max_step_retries = 3

unfoldable pub should_retry_step : PlanStep → ℕ → Bool
should_retry_step step attempt =
    if is_failed step.status then ltb attempt max_step_retries else false

unfoldable pub order_steps : List PlanStep → List PlanStep
order_steps = order (λ step. step.id) (λ step. step.dependencies)

-- What a skill returns, or the text of the exception that it raises.
pub data SkillResult : Type 0 where
  return : Fields → SkillResult
  raise : String → SkillResult

abbrev pub Skill : Type 0 → Type 0
Skill World = Fields → World → SkillResult × World

-- `CapabilityRegistry.get_skill_for_capability`
abbrev pub Registry : Type 0 → Type 0
Registry World = String → Option (Skill World)

abbrev pub entry : Option Uuid → String → String → ExecutionLogEntry
entry step_id level message = record { step_id = step_id; level = level; message = message }

abbrev pub log : Option Uuid → String → String → TaskExecution → TaskExecution
log step_id level message execution = record execution {
  logs = execution.logs ++ (entry step_id level message ∷ []);
}

module _ {World : Type 0} (registry : Registry World) where
  abbrev payload_of : PlanStep → Fields
  payload_of step = field "step_id" (Json.string step.id) (
      field "description" (Json.string step.description)
        (field "capability" (Json.string step.capability) end))

  abbrev call : Option (Skill World) → PlanStep → World → SkillResult × World
  call none step world = (raise ("No skill registered for capability: " <> step.capability), world)
  call (some skill) step world = skill (payload_of step) world

  unfoldable pub execute_step : PlanStep → World → SkillResult × World
  execute_step step world = call (registry step.capability) step world

  -- A step that is under way.
  pub record StepRun : Type 0 where
    pub step : PlanStep
    pub execution : TaskExecution
    pub world : World

  abbrev pub succeed : Fields → StepRun → StepRun
  succeed result run = record run {
    step = record run.step { status = StepStatus.completed; result = some result };
    execution =
        log (some run.step.id) "info" ("Step completed: " <> run.step.description) run.execution;
  }

  abbrev pub fail : ℕ → String → StepRun → StepRun
  fail attempt exc run = record run {
    step = record run.step { status = StepStatus.failed };
    execution =
        log (some run.step.id) "error" ("Step failed (attempt " <> str attempt <> "): " <> exc)
          run.execution;
  }

  abbrev pub retried : StepRun → StepRun
  retried run = record run { step = record run.step { status = StepStatus.pending } }

  -- What follows the call of the skill, `again` being the attempts that are left.
  unfoldable pub after : (StepRun → Bool × StepRun) → ℕ → SkillResult → StepRun → Bool × StepRun
  after again attempt (return result) run = (true, succeed result run)
  after again attempt (raise exc) run =
      let failed = fail attempt exc run in
      let retry = again (retried failed) in
      if should_retry_step failed.step attempt then retry else (false, failed)

  -- The loop, with the number of attempts left and that of the next one
  unfoldable pub attempts : ℕ → ℕ → StepRun → Bool × StepRun
  attempts zero attempt run = (false, run)
  attempts (suc left) attempt run =
      let (result, world) = execute_step run.step run.world in
      after (attempts left (suc attempt)) attempt result (record run { world = world })

  unfoldable pub run_step_with_retry : StepRun → Bool × StepRun
  unfolding attempts
  run_step_with_retry run = attempts max_step_retries 1 run

  -- The state of `execute`.
  pub record Run : Type 0 where
    pub plan : TaskPlan
    pub execution : TaskExecution
    pub completed_ids : List Uuid
    pub world : World

  abbrev pub store_step : PlanStep → Run → Run
  store_step step run = record run {
    plan = record run.plan { steps = put_step step run.plan.steps };
  }

  -- `step.status = SKIPPED`
  unfoldable pub skip : PlanStep → Run → Run
  skip step run =
      store_step (record step { status = StepStatus.skipped })
        (record run {
          execution =
              log (some step.id) "warning"
                ("Step skipped — unmet dependencies: " <> step.description) run.execution;
        })

  abbrev pub begin : PlanStep → Run → StepRun
  begin step run = record {
    step = record step { status = StepStatus.running };
    execution =
        log (some step.id) "info" ("Step started: " <> step.description)
          (record run.execution { current_step = some step.id });
    world = run.world;
  }

  -- What the step has left when it is done
  unfoldable pub end_step : StepRun → Run → Run
  end_step done run =
      store_step done.step (record run { execution = done.execution; world = done.world })

  unfoldable pub stop : PlanStep → Run → Run
  stop step run = record run {
    plan = record run.plan { status = PlanStatus.failed };
    execution =
        log (some step.id) "error" ("Execution failed at step: " <> step.description)
          (record run.execution { status = TaskExecutionStatus.failed });
  }

  unfoldable pub finish : Run → Run
  finish run =
      let plan = record run.plan { status = PlanStatus.completed } in
      let done = length (select (λ s. is_completed s.status) plan.steps) in
      record run {
        plan = plan;
        execution = log none "info" "Execution completed successfully" (record run.execution {
          status = TaskExecutionStatus.completed;
          current_step = none;
          results = field "goal" (Json.string plan.goal) (
              field "summary" (Json.string plan.summary)
                (field "steps_completed" (Json.number (str done)) end));
        });
      }

  unfoldable pub run_steps : List PlanStep → Run → Run
  run_steps [] run = finish run
  run_steps (step ∷ steps) run =
      let (success, done) = run_step_with_retry (begin step run) in
      let ended = end_step done run in
      let skipped_rest = run_steps steps (skip step run) in
      let rest =
        run_steps steps (record ended { completed_ids = ended.completed_ids ++ (step.id ∷ []) }) in
      if all (contains run.completed_ids) step.dependencies
      then (if success then rest else stop step ended)
      else skipped_rest

  abbrev pub started : TaskPlan → Uuid → World → Run
  started plan task_id world = record {
    plan = record plan { status = PlanStatus.ready };
    execution = record {
      task_id = task_id;
      plan_id = some plan.id;
      current_step = none;
      status = TaskExecutionStatus.running;
      logs = entry none "info" ("Execution started for plan " <> plan.id) ∷ [];
      results = end;
    };
    completed_ids = [];
    world = world;
  }

  unfoldable pub execute : TaskPlan → Uuid → World → Run
  execute plan task_id world = run_steps (order_steps plan.steps) (started plan task_id world)
