-- ===== src/Planning/Outcome.antt =====
-- What `TaskExecutor.execute` makes of a plan whose dependencies are steps and have no cycle.
use mathlib.Core.List.{Perm, append-nil, append_assoc}
use ai_employee_os.Common.{
  ℕ, ◌≡◌, refl, ◌∙◌, true, false, ◌⊎◌, inl, inr, List, [], ◌∷◌, ◌++◌, map, arith, Bool-cases,
  contains, contains-append, string_eq, ◌==◌, ==_refl, all-true, All, All-map,
}
use ai_employee_os.Planning.Models.{
  Uuid, PlanStatus, StepStatus, TaskExecutionStatus, PlanStep, TaskPlan, put_step,
}
use ai_employee_os.Planning.Executor.{
  Registry, Run, order_steps, begin, end_step, stop, finish, run_steps, started, execute,
  run_step_with_retry,
}
use ai_employee_os.Planning.Ordering.Sound.{order-perm}
use ai_employee_os.Planning.Ordering.Acyclic.{
  IsOrdered, IsRanked, IsClosed, order-IsOrdered, has-order,
}
use ai_employee_os.Planning.Retry.{run_step_with_retry-completed}

abbrev pub id_of : PlanStep → Uuid
id_of step = step.id

abbrev pub deps_of : PlanStep → List Uuid
deps_of step = step.dependencies

-- The steps that run are those of the plan, each behind the steps that it depends on, when
-- the dependencies are steps of the plan and some rank falls along them.
pub order_steps-IsOrdered :
    (rank : Uuid → ℕ) (steps : List PlanStep)
    → IsRanked id_of deps_of rank steps
    → IsClosed id_of deps_of steps steps
    → Perm (order_steps steps) steps × IsOrdered id_of deps_of [] (order_steps steps)
unfolding order_steps
order_steps-IsOrdered rank steps ranked closed =
    (order-perm id_of deps_of steps, order-IsOrdered id_of deps_of rank steps ranked closed)

All-put_step :
    (P Q : PlanStep → Type 0) (new : PlanStep) (steps : List PlanStep)
    → ((old : PlanStep) → (new.id == old.id) ≡ false → P old → Q old)
    → Q new
    → All P steps
    → All Q (put_step new steps)
unfolding put_step
All-put_step P Q new [] keep q h = tt
All-put_step P Q new (old ∷ steps) keep q h = elim (Bool-cases (new.id == old.id)) [
  | inl same ↦ rw same (q, All-put_step P Q new steps keep q h.1)
  | inr other ↦ rw other (keep old other h.0, All-put_step P Q new steps keep q h.1)
]

All-self : (steps : List PlanStep) → All (λ s. contains (map id_of steps) s.id ≡ true) steps
All-self [] = tt
All-self (step ∷ steps) = (rw ==_refl refl, All-map (λ s h. ground arith) steps (All-self steps))

module _ {World : Type 0} (registry : Registry World) where
  -- A step in the plan is done, if its id is among those completed, or still to come.
  abbrev IsKnown : List Uuid → List PlanStep → PlanStep → Type 0
  IsKnown completed rest step =
      (contains completed step.id ≡ true → step.status ≡ StepStatus.completed)
      × (contains (completed ++ map id_of rest) step.id ≡ true)

  abbrev HasOutcome : Run registry → Type 0
  HasOutcome out =
      (out.execution.status ≡ TaskExecutionStatus.completed)
        × (out.plan.status ≡ PlanStatus.completed)
        × All (λ step. step.status ≡ StepStatus.completed) out.plan.steps
      ⊎ (out.execution.status ≡ TaskExecutionStatus.failed) × (out.plan.status ≡ PlanStatus.failed)

  finish_lem :
      (run : Run registry)
      → All (IsKnown run.completed_ids []) run.plan.steps
      → HasOutcome (finish registry run)
  unfolding finish
  finish_lem run known =
      inl (refl, refl, All-map (λ step k. k.0 (rw append-nil at k.1)) run.plan.steps known)

  stop_lem : (step : PlanStep) (run : Run registry) → HasOutcome (stop registry step run)
  unfolding stop
  stop_lem step run = inr (refl, refl)

  put_step-IsKnown :
      (completed : List Uuid) (steps : List PlanStep) (step new : PlanStep) (stored : List PlanStep)
      → new.id ≡ step.id
      → new.status ≡ StepStatus.completed
      → All (IsKnown completed (step ∷ steps)) stored
      → All (IsKnown (completed ++ (step.id ∷ [])) steps) (put_step new stored)
  put_step-IsKnown completed steps step new stored same done =
      All-put_step (IsKnown completed (step ∷ steps)) (IsKnown (completed ++ (step.id ∷ [])) steps)
        new stored
        (λ old other (finished, there). (
          λ h. finished (ground (arith, contains-append completed (step.id ∷ []) old.id)),
          rw append_assoc there,
        ))
        (
          (λ _. done),
          rw append_assoc
              (ground (arith, contains-append completed (step.id ∷ map id_of steps) new.id)),
        )

  run_steps_lem :
      (steps : List PlanStep) (run : Run registry)
      → IsOrdered id_of deps_of run.completed_ids steps
      → All (IsKnown run.completed_ids steps) run.plan.steps
      → HasOutcome (run_steps registry steps run)
  unfolding run_steps end_step
  run_steps_lem [] run o known = finish_lem run known
  run_steps_lem (step ∷ steps) run o known =
      let met = all-true (contains run.completed_ids) step.dependencies o.0 in
      let begun = begin registry step run in
      elim (Bool-cases (run_step_with_retry registry begun).0) [
        | inl ok ↦
            rw (met, ok)
              (let (same, done) = run_step_with_retry-completed registry begun ok in
                run_steps_lem steps _ o.1
                  (put_step-IsKnown run.completed_ids steps step _ run.plan.steps same done known))
        | inr failed ↦ rw (met, failed) (stop_lem step _)
      ]

  order_steps-IsKnown : (steps : List PlanStep) → All (IsKnown [] (order_steps steps)) steps
  unfolding order_steps
  order_steps-IsKnown steps =
      All-map (λ step there. ((λ h. cc), has-order id_of deps_of steps step.id ∙ there)) steps
        (All-self steps)

  -- When the dependencies are steps of the plan and some rank falls along them, an execution
  -- either completes, with every step of the plan completed and none skipped, or fails.
  pub execute-HasOutcome :
      (rank : Uuid → ℕ) (plan : TaskPlan) (task_id : Uuid) (world : World)
      → IsRanked id_of deps_of rank plan.steps
      → IsClosed id_of deps_of plan.steps plan.steps
      → let out = execute registry plan task_id world in
        (out.execution.status ≡ TaskExecutionStatus.completed)
          × (out.plan.status ≡ PlanStatus.completed)
          × All (λ step. step.status ≡ StepStatus.completed) out.plan.steps
        ⊎ (out.execution.status ≡ TaskExecutionStatus.failed)
          × (out.plan.status ≡ PlanStatus.failed)
  unfolding execute
  execute-HasOutcome rank plan task_id world ranked closed =
      run_steps_lem (order_steps plan.steps) (started registry plan task_id world)
        (order_steps-IsOrdered rank plan.steps ranked closed).1 (order_steps-IsKnown plan.steps)
