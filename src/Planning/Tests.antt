-- ===== src/Planning/Tests.antt =====
-- Runs of the planner's parts on small plans.
use ai_employee_os.Common.{
  ℕ, zero, suc, ◌≡◌, refl, String, ◌⊎◌, Option, none, some, List, [], ◌∷◌, map, arith, string_eq,
  All, ◌==◌, if◌then◌else◌,
}
use ai_employee_os.Common.Json.{Uuid, end, str}
use mathlib.Core.List.{Perm}
use ai_employee_os.Planning.Models.{
  PlanStatus, StepStatus, TaskExecutionStatus, PlanStep, TaskPlan, put_step,
}
use ai_employee_os.Planning.Ordering.{pass, rounds, order}
use ai_employee_os.Planning.Ordering.Acyclic.{IsOrdered}
use ai_employee_os.Planning.Executor.{
  return, raise, Skill, Registry, begin, started, run_step_with_retry, execute, order_steps,
  should_retry_step, execute_step, after, attempts, skip, end_step, stop, finish, run_steps,
  max_step_retries,
}
use ai_employee_os.Planning.Retry.{
  outcomes, first_return, is_some, step_after, run_step_with_retry_lem,
}
use ai_employee_os.Planning.Outcome.{id_of, deps_of, order_steps-IsOrdered, execute-HasOutcome}
use ai_employee_os.Planning.Parser.{
  StepData, PlanData, resolve_indices, parse_steps, parse_task_plan, IsBackward,
  parse_task_plan-IsBackward,
}

abbrev step : String → List Uuid → PlanStep
step id dependencies = record {
  id = id;
  description = "step";
  capability = "writing";
  dependencies = dependencies;
  status = StepStatus.pending;
  result = none;
}

abbrev plan : TaskPlan
plan = record {
  id = "p";
  goal = "goal";
  summary = "summary";
  steps = step "b" ("a" ∷ []) ∷ step "a" [] ∷ [];
  required_capabilities = [];
  status = PlanStatus.draft;
}

-- The world counts down, and a skill fails as long as it is not at zero.
abbrev flaky : Skill ℕ
flaky payload zero = (return end, zero)
flaky payload (suc n) = (raise "busy", n)

abbrev registry : Registry ℕ
registry capability = some flaky

abbrev rank : Uuid → ℕ
rank id = if id == "a" then 0 else 1

unfoldable program : Unit {0}
unfolding order_steps order rounds pass execute run_steps finish stop end_step skip
    run_step_with_retry attempts after execute_step should_retry_step put_step string_eq str
    parse_task_plan parse_steps resolve_indices
program = tt

retries_suffice :
    map (λ s. s.status) (execute registry plan "t" 2).plan.steps
    ≡ StepStatus.completed ∷ StepStatus.completed ∷ []
unfolding program
retries_suffice = refl

fails : (execute registry plan "t" 3).execution.status ≡ TaskExecutionStatus.failed
unfolding program
fails = refl

abbrev row : List (Option ℕ) → StepData
row dependencies = record {
  description = "step";
  capability = "writing";
  dependencies = dependencies;
}

-- The second step names its own index.
abbrev selfish : PlanData
selfish = record {
  goal = "goal";
  summary = "summary";
  required_capabilities = [];
  steps = row [] ∷ row (some 0 ∷ some 1 ∷ some 7 ∷ none ∷ []) ∷ [];
}

self_dependency :
    map (λ s. s.dependencies) (parse_task_plan str selfish).steps ≡ [] ∷ ("1" ∷ "2" ∷ []) ∷ []
unfolding program
self_dependency = refl

-- The plan completes though its second step is skipped.
self_dependency_skipped :
    let out = execute registry (parse_task_plan str selfish) "t" 0 in
    (out.plan.status ≡ PlanStatus.completed)
    × (map (λ s. s.status) out.plan.steps ≡ StepStatus.completed ∷ StepStatus.skipped ∷ [])
unfolding program
self_dependency_skipped = (refl, refl)

order_steps-IsOrdered_example :
    Perm (order_steps plan.steps) plan.steps × IsOrdered id_of deps_of [] (order_steps plan.steps)
unfolding program
order_steps-IsOrdered_example =
    order_steps-IsOrdered rank plan.steps ((omega arith, tt), (tt, tt)) ((refl, tt), (tt, tt))

run_step_with_retry_example :
    let run = begin registry (step "a" []) (started registry plan "t" 2) in
    let got = first_return (outcomes registry max_step_retries run.step run.world) in
    let out = run_step_with_retry registry run in
    (out.0 ≡ is_some got) × (out.1.step ≡ step_after got run.step)
run_step_with_retry_example =
    run_step_with_retry_lem registry (begin registry (step "a" []) (started registry plan "t" 2))

execute-HasOutcome_example :
    let out = execute registry plan "t" 2 in
    (out.execution.status ≡ TaskExecutionStatus.completed)
      × (out.plan.status ≡ PlanStatus.completed)
      × All (λ s. s.status ≡ StepStatus.completed) out.plan.steps
    ⊎ (out.execution.status ≡ TaskExecutionStatus.failed) × (out.plan.status ≡ PlanStatus.failed)
unfolding program
execute-HasOutcome_example =
    execute-HasOutcome registry rank plan "t" 2 ((omega arith, tt), (tt, tt)) ((refl, tt), (tt, tt))

parse_task_plan-IsBackward_example : IsBackward [] (parse_task_plan str selfish).steps
parse_task_plan-IsBackward_example = parse_task_plan-IsBackward str selfish
