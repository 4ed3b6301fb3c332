-- ===== src/Planning/Parser.antt =====
-- backend/app/planning/parsers/plan_parser.py, once the JSON text is read and the fields have
-- their types. `uuid4` is a parameter: the ids that it gives, in the order of the calls.
use ai_employee_os.Common.{
  ℕ, zero, suc, ◌≡◌, String, true, Option, none, some, List, [], ◌∷◌, ◌++◌, arith, length,
  get_elem?, contains, string_eq, All, Option-cases, inl, inr,
}
use ai_employee_os.Common.Json.{Uuid}
use ai_employee_os.Planning.Models.{PlanStatus, StepStatus, PlanStep, TaskPlan}

-- An entry of `dependencies` is an index, or something that is no int or is negative.
pub record StepData : Type 0 where
  pub description : String
  pub capability : String
  pub dependencies : List (Option ℕ)

pub record PlanData : Type 0 where
  pub goal : String
  pub summary : String
  pub required_capabilities : List String
  pub steps : List StepData

-- `[step_ids[i] for i in indices if isinstance(i, int) and 0 <= i < len(step_ids)]`
abbrev pub cons_some : Option Uuid → List Uuid → List Uuid
cons_some none ids = ids
cons_some (some id) ids = id ∷ ids

abbrev pub id_at : List Uuid → Option ℕ → Option Uuid
id_at step_ids none = none
id_at step_ids (some i) = get_elem? step_ids i

unfoldable pub resolve_indices : List Uuid → List (Option ℕ) → List Uuid
resolve_indices step_ids [] = []
resolve_indices step_ids (i ∷ indices) =
    cons_some (id_at step_ids i) (resolve_indices step_ids indices)

-- The loop. The step's own id is appended before its indices are looked up.
unfoldable pub parse_steps : (ℕ → Uuid) → List Uuid → List StepData → List PlanStep
parse_steps uuid4 step_ids [] = []
parse_steps uuid4 step_ids (step_data ∷ rest) =
    let step_id = uuid4 (suc (length step_ids)) in
    let ids = step_ids ++ (step_id ∷ []) in
    record {
      id = step_id;
      description = step_data.description;
      capability = step_data.capability;
      dependencies = resolve_indices ids step_data.dependencies;
      status = StepStatus.pending;
      result = none;
    }
    ∷ parse_steps uuid4 ids rest

unfoldable pub parse_task_plan : (ℕ → Uuid) → PlanData → TaskPlan
parse_task_plan uuid4 plan_data = record {
  id = uuid4 0;
  goal = plan_data.goal;
  summary = plan_data.summary;
  steps = parse_steps uuid4 [] plan_data.steps;
  required_capabilities = plan_data.required_capabilities;
  status = PlanStatus.draft;
}

-- A step depends on steps before it or on itself.
abbrev pub IsBackward : List Uuid → List PlanStep → Type 0
IsBackward seen [] = Unit
IsBackward seen (step ∷ steps) =
    All (λ d. contains (seen ++ (step.id ∷ [])) d ≡ true) step.dependencies
    × IsBackward (seen ++ (step.id ∷ [])) steps

contains-get_elem? :
    (ids : List Uuid) (i : ℕ) (d : Uuid) → get_elem? ids i ≡ some d → contains ids d ≡ true
contains-get_elem? [] i d h = cc
contains-get_elem? (x ∷ ids) zero d h = ground arith
contains-get_elem? (x ∷ ids) (suc i) d h = ground (arith, contains-get_elem? ids i d h)

resolve_indices_lem :
    (ids : List Uuid) (indices : List (Option ℕ))
    → All (λ d. contains ids d ≡ true) (resolve_indices ids indices)
unfolding resolve_indices
resolve_indices_lem ids [] = tt
resolve_indices_lem ids (none ∷ indices) = resolve_indices_lem ids indices
resolve_indices_lem ids (some i ∷ indices) = elim (Option-cases (get_elem? ids i)) [
  | inl absent ↦ rw absent (resolve_indices_lem ids indices)
  | inr (d, there) ↦ rw there (contains-get_elem? ids i d there, resolve_indices_lem ids indices)
]

parse_steps_lem :
    (uuid4 : ℕ → Uuid) (ids : List Uuid) (rows : List StepData)
    → IsBackward ids (parse_steps uuid4 ids rows)
unfolding parse_steps
parse_steps_lem uuid4 ids [] = tt
parse_steps_lem uuid4 ids (x ∷ rows) =
    (resolve_indices_lem _ x.dependencies, parse_steps_lem uuid4 _ rows)

-- Each step of a parsed plan depends only on steps that come before it in the plan, or on
-- itself.
pub parse_task_plan-IsBackward :
    (uuid4 : ℕ → Uuid) (plan_data : PlanData)
    → IsBackward [] (parse_task_plan uuid4 plan_data).steps
unfolding parse_task_plan
parse_task_plan-IsBackward uuid4 plan_data = parse_steps_lem uuid4 [] plan_data.steps
