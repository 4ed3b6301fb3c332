-- ===== src/Planning/Ordering/Sound.antt =====
-- The order keeps the entries, and where the dependencies have no cycle it puts each entry behind
-- its dependencies.
use mathlib.Core.List.Perm
use mathlib.Core.List.{Perm, append-nil, append_assoc, perm_middle}
use ai_employee_os.Common.{
  ℕ, zero, suc, ◌+◌, ◌≤◌, ◌<◌, ◌≡◌, refl, sym, ◌∙◌, true, false, inl, inr, List, [], ◌∷◌, ◌++◌,
  arith, string_eq, length, All, length-append, Bool-cases,
}
use ai_employee_os.Common.Json.{Uuid}
use ai_employee_os.Planning.Ordering.{satisfied, Pass, visit, pass, rounds, order}

module _ {A : Type 0} (name : A → Uuid) (deps : A → List Uuid) where
  abbrev pub start : List A → Pass name deps
  start ordered = record { ordered = ordered; kept = []; progress = false }

  pub pass-perm :
      (xs : List A) (p : Pass name deps)
      → Perm
          ((pass name deps p xs).ordered ++ (pass name deps p xs).kept)
          ((p.ordered ++ p.kept) ++ xs)
  unfolding pass
  pass-perm [] p = rw append-nil (Perm.refl _)
  pass-perm (x ∷ xs) p = elim (Bool-cases (satisfied name deps p.ordered x)) [
    | inl ok ↦
        Perm.trans (pass-perm xs (visit name deps p x)) (
          rw ok
            (simp append_assoc (Perm.append_left p.ordered (Perm.symm (perm_middle p.kept xs)))))
    | inr waits ↦
        Perm.trans (pass-perm xs (visit name deps p x)) (rw waits (simp append_assoc (Perm.refl _)))
  ]

  pub pass-progress :
      (xs : List A) (p : Pass name deps)
      → (pass name deps p xs).progress ≡ false
      → (p.progress ≡ false)
        × ((pass name deps p xs).ordered ≡ p.ordered)
        × All (λ x. satisfied name deps p.ordered x ≡ false) xs
        × ((pass name deps p xs).kept ≡ p.kept ++ xs)
  unfolding pass
  pass-progress [] p h = (h, refl, tt, sym (append-nil p.kept))
  pass-progress (x ∷ xs) p h = elim (Bool-cases (satisfied name deps p.ordered x)) [
    | inl ok ↦
        let (f, _, _, _) = pass-progress xs (visit name deps p x) h in
        let impossible : true ≡ false = rw ok at f in cc
    | inr waits ↦
        let (f, o, none_ready, k) = rw waits at (pass-progress xs (visit name deps p x) h) in
        rw (waits, pass) (f, o, (refl, none_ready), k ∙ append_assoc p.kept (x ∷ []) xs)
  ]

  length-pass-le :
      (xs : List A) (p : Pass name deps)
      → length (pass name deps p xs).kept ≤ length p.kept + length xs
  unfolding pass
  length-pass-le [] p = omega arith
  length-pass-le (x ∷ xs) p =
      ground (arith, length-pass-le xs (visit name deps p x), length-append p.kept (x ∷ []))

  -- A round that places something leaves fewer entries.
  pub pass-shrinks :
      (xs : List A) (p : Pass name deps)
      → (pass name deps p xs).progress ≡ true
      → p.progress ≡ false
      → length (pass name deps p xs).kept < length p.kept + length xs
  unfolding pass
  pass-shrinks [] p h k = cc
  pass-shrinks (x ∷ xs) p h k = ground (
    arith,
    length-pass-le xs (visit name deps p x),
    pass-shrinks xs (visit name deps p x) h,
    length-append p.kept (x ∷ []),
  )

  rounds-perm :
      (fuel : ℕ) (ordered xs : List A) → Perm (rounds name deps fuel ordered xs) (ordered ++ xs)
  unfolding rounds
  rounds-perm fuel ordered [] = rw append-nil (Perm.refl _)
  rounds-perm zero ordered (x ∷ xs) = Perm.refl _
  rounds-perm (suc fuel) ordered (x ∷ xs) =
      let p = pass name deps (start ordered) (x ∷ xs) in
      let moved = rw append-nil at (pass-perm (x ∷ xs) (start ordered)) in
      elim (Bool-cases p.progress) [
        | inl more ↦ rw (more, rounds) (Perm.trans (rounds-perm fuel p.ordered p.kept) moved)
        | inr stuck ↦ rw (stuck, rounds) moved
      ]

  -- Nothing is lost and nothing is made up.
  pub order-perm : (xs : List A) → Perm (order name deps xs) xs
  unfolding order
  order-perm xs = rounds-perm (length xs) [] xs
