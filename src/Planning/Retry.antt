-- ===== src/Planning/Retry.antt =====
-- The attempts of `_run_step_with_retry`.
use ai_employee_os.Common.{
  ℕ, zero, suc, ◌+◌, ◌≡◌, refl, sym, ap, ◌∙◌, Bool, true, false, ◌⊎◌, inl, inr, Option, none, some,
  List, [], ◌∷◌, ltb, arith, String, Option-cases,
}
use ai_employee_os.Common.Json.{Fields}
use ai_employee_os.Planning.Models.{StepStatus, PlanStep}
use ai_employee_os.Planning.Executor.{
  Registry, SkillResult, return, raise, StepRun, execute_step, after, attempts, run_step_with_retry,
  should_retry_step, max_step_retries, retried, fail,
}

abbrev pub first_return : List SkillResult → Option Fields
first_return [] = none
first_return (return r ∷ rest) = some r
first_return (raise _ ∷ rest) = first_return rest

abbrev pub is_some : Option Fields → Bool
is_some none = false
is_some (some _) = true

abbrev pub step_after : Option Fields → PlanStep → PlanStep
step_after none step = record step { status = StepStatus.failed }
step_after (some r) step = record step { status = StepStatus.completed; result = some r }

result-cases : (r : SkillResult) → ((x : Fields) × (r ≡ return x)) ⊎ ((e : String) × (r ≡ raise e))
result-cases (return x) = inl (x, refl)
result-cases (raise e) = inr (e, refl)

module _ {World : Type 0} (registry : Registry World) where
  -- What the skill gives when it is called so many times.
  abbrev pub outcomes : ℕ → PlanStep → World → List SkillResult
  outcomes zero step world = []
  outcomes (suc n) step world =
      let (result, next) = execute_step registry step world in result ∷ outcomes n step next

  execute_step-status :
      (status : StepStatus) (step : PlanStep) (world : World)
      → execute_step registry (record step { status = status }) world
        ≡ execute_step registry step world
  unfolding execute_step
  execute_step-status status step world = elim (Option-cases (registry step.capability)) [
    | inl e ↦ rw e refl
    | inr (skill, e) ↦ rw e refl
  ]

  outcomes-status :
      (n : ℕ) (status : StepStatus) (step : PlanStep) (world : World)
      → outcomes n (record step { status = status }) world ≡ outcomes n step world
  outcomes-status zero status step world = refl
  outcomes-status (suc n) status step world = rw (execute_step-status status step world) (
      ap (λ l. (execute_step registry step world).0 ∷ l)
        (outcomes-status n status step (execute_step registry step world).1))

  step_after-status :
      (got : Option Fields) (status : StepStatus) (step : PlanStep)
      → step_after got (record step { status = status }) ≡ step_after got step
  step_after-status none status step = refl
  step_after-status (some r) status step = refl

  abbrev IsSettled : Option Fields → PlanStep → Bool × StepRun registry → Type 0
  IsSettled got step out = (out.0 ≡ is_some got) × (out.1.step ≡ step_after got step)

  attempts_lem :
      (left attempt : ℕ) (run : StepRun registry)
      → left + attempt ≡ max_step_retries
      → IsSettled
          (first_return (outcomes (suc left) run.step run.world))
          run.step
          (attempts registry (suc left) attempt run)
  unfolding attempts after should_retry_step
  attempts_lem zero attempt run sum =
      let last : ltb attempt max_step_retries ≡ false = ground arith in
      elim (result-cases (execute_step registry run.step run.world).0) [
        | inl (r, e) ↦ rw e (refl, refl)
        | inr (x, e) ↦ rw e (rw last (refl, refl))
      ]
  attempts_lem (suc left) attempt run sum =
      let more : ltb attempt max_step_retries ≡ true = ground arith in
      let world = (execute_step registry run.step run.world).1 in
      elim (result-cases (execute_step registry run.step run.world).0) [
        | inl (r, e) ↦ rw e (refl, refl)
        | inr (x, e) ↦
            let failed = fail registry attempt x (record run { world = world }) in
            let (success, settled) =
              attempts_lem left (suc attempt) (retried registry failed) (omega arith) in
            let same = outcomes-status (suc left) StepStatus.pending run.step world in
            rw e (
              rw more (
                success ∙ ap (λ l. is_some (first_return l)) same,
                settled
                    ∙ (ap (λ l. step_after (first_return l) (retried registry failed).step) same
                        ∙ step_after-status _ StepStatus.pending run.step),
              ))
      ]

  -- A step succeeds exactly if one of three calls of its skill returns, with what the first of
  -- them returns as its result, and is failed otherwise. The world that one call leaves is the
  -- next one's.
  pub run_step_with_retry_lem :
      (run : StepRun registry)
      → let got = first_return (outcomes max_step_retries run.step run.world) in
        let out = run_step_with_retry registry run in
        (out.0 ≡ is_some got) × (out.1.step ≡ step_after got run.step)
  unfolding run_step_with_retry
  run_step_with_retry_lem run = attempts_lem 2 1 run refl

  step_after-completed :
      (got : Option Fields) (step : PlanStep)
      → is_some got ≡ true
      → ((step_after got step).id ≡ step.id) × ((step_after got step).status ≡ StepStatus.completed)
  step_after-completed none step h = cc
  step_after-completed (some r) step h = (refl, refl)

  pub run_step_with_retry-completed :
      (run : StepRun registry)
      → (run_step_with_retry registry run).0 ≡ true
      → ((run_step_with_retry registry run).1.step.id ≡ run.step.id)
        × ((run_step_with_retry registry run).1.step.status ≡ StepStatus.completed)
  run_step_with_retry-completed run ok =
      let (success, settled) = run_step_with_retry_lem run in
      rw settled (step_after-completed _ run.step (sym success ∙ ok))
