-- ===== src/Planning/Ordering.antt =====
-- The loop of `_order_steps` (backend/app/planning/executor.py) and `_topological_order`
-- (backend/app/orchestration/execution_graph.py), over anything that has a name and the names of
-- its dependencies. `remaining.remove(x)` drops the entry that the pass is at.
pub mod Sound
pub mod Acyclic
use ai_employee_os.Common.{
  ℕ, zero, suc, Bool, true, false, List, [], ◌∷◌, ◌++◌, if◌then◌else◌, contains, string_eq, all,
  map, length,
}
use ai_employee_os.Common.Json.{Uuid}

module _ {A : Type 0} (name : A → Uuid) (deps : A → List Uuid) where
  abbrev pub names : List A → List Uuid
  names = map name

  abbrev pub satisfied : List A → A → Bool
  satisfied ordered x = all (λ d. contains (names ordered) d) (deps x)

  pub record Pass : Type 0 where
    pub ordered : List A
    pub kept : List A
    pub progress : Bool

  abbrev pub visit : Pass → A → Pass
  visit p x =
      if satisfied p.ordered x
      then record p { ordered = p.ordered ++ (x ∷ []); progress = true }
      else record p { kept = p.kept ++ (x ∷ []) }

  -- The `for` loop over a copy of `remaining`
  unfoldable pub pass : Pass → List A → Pass
  pass p [] = p
  pass p (x ∷ xs) = pass (visit p x) xs

  -- The `while` loop. Each round but the last one places an entry, so `length` rounds are enough.
  unfoldable pub rounds : ℕ → List A → List A → List A
  unfolding pass
  rounds fuel ordered [] = ordered
  rounds zero ordered (x ∷ xs) = ordered ++ (x ∷ xs)
  rounds (suc fuel) ordered (x ∷ xs) =
      let p = pass (record { ordered = ordered; kept = []; progress = false }) (x ∷ xs) in
      let next = rounds fuel p.ordered p.kept in if p.progress then next else p.ordered ++ p.kept

  unfoldable pub order : List A → List A
  unfolding rounds
  order xs = rounds (length xs) [] xs
