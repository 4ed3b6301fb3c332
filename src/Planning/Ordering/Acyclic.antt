-- ===== src/Planning/Ordering/Acyclic.antt =====
-- Where the dependencies have no cycle the order puts each entry behind its dependencies.
use mathlib.Core.List.{append-nil, append_assoc, map-append}
use ai_employee_os.Common.{
  ℕ, zero, suc, ◌+◌, ◌≤◌, ◌<◌, ◌≡◌, refl, sym, ap, ◌∙◌, Bool, true, false, inl, inr, List, [], ◌∷◌,
  ◌++◌, arith, contains, contains-append, string_eq, all-false, All-of_all, length, All, All-both,
  All-append, All-map, ◌==◌, ◌||◌, Bool-cases, ==→eq,
}
use ai_employee_os.Common.Json.{Uuid}
use ai_employee_os.Planning.Ordering.{names, satisfied, Pass, visit, pass, rounds, order}
use ai_employee_os.Planning.Ordering.Sound.{start, pass-progress, pass-shrinks}

module _ {A : Type 0} (name : A → Uuid) (deps : A → List Uuid) where
  -- An entry that bears a listed name.
  pick :
      {Q : A → Type 0} (d : Uuid) (xs : List A)
      → contains (names name deps xs) d ≡ true
      → All Q xs
      → (x : A) × (name x ≡ d) × Q x
  pick d [] h q = cc
  pick d (x ∷ xs) h q = elim (Bool-cases (d == name x)) [
    | inl same ↦ (x, sym (==→eq d (name x) same), q.0)
    | inr other ↦ pick d xs (rw other at h) q.1
  ]

  -- Each entry stands behind its dependencies.
  abbrev pub IsOrdered : List Uuid → List A → Type 0
  IsOrdered seen [] = Unit
  IsOrdered seen (x ∷ xs) =
      All (λ d. contains seen d ≡ true) (deps x) × IsOrdered (seen ++ (name x ∷ [])) xs

  -- A rank that falls from an entry to each of its dependencies: there is no cycle.
  abbrev pub IsRanked : (Uuid → ℕ) → List A → Type 0
  IsRanked rank xs = All (λ x. All (λ d. rank d < rank (name x)) (deps x)) xs

  -- Every dependency is the name of an entry of `known`.
  abbrev pub IsClosed : List A → List A → Type 0
  IsClosed known xs = All (λ x. All (λ d. contains (names name deps known) d ≡ true) (deps x)) xs

  module _ (rank : Uuid → ℕ) (ordered rest : List A) (ranked : IsRanked rank rest)
      (closed : IsClosed (ordered ++ rest) rest)
      (none_ready : All (λ x. satisfied name deps ordered x ≡ false) rest) where
    below :
        (n : ℕ)
        → All (λ y. rank (name y) < n → ⊥) rest
        → (x : A)
        → All (λ d. rank d < rank (name x)) (deps x)
          × (All (λ d. contains (names name deps (ordered ++ rest)) d ≡ true) (deps x)
              × (satisfied name deps ordered x ≡ false))
        → rank (name x) < suc n
        → ⊥
    below n none_lower x (lower, (known, waits)) h =
        let (d, absent, (less, there)) =
          all-false
            (λ e.
              (rank e < rank (name x)) × (contains (names name deps (ordered ++ rest)) e ≡ true))
            (λ e. contains (names name deps ordered) e) (deps x) waits
            (All-both _ _ (deps x) lower known) in
        let pending : contains (names name deps rest) d ≡ true = ground (
          arith,
          ap (λ l. contains l d) (map-append name ordered rest),
          contains-append (names name deps ordered) (names name deps rest) d,
          there,
          absent,
        ) in
        let (y, named, deep) = pick d rest pending none_lower in deep (rw named (omega arith))

    descent : (n : ℕ) → All (λ x. rank (name x) < n → ⊥) rest
    descent zero = All-map (λ x _ h. omega arith) rest ranked
    descent (suc n) =
        All-map (below n (descent n)) rest
          (All-both _ _ rest ranked (All-both _ _ rest closed none_ready))

    -- Some entry is ready, unless none is left.
    rest-eq-nil : rest ≡ []
    rest-eq-nil = empty rest (descent (suc (top rest)))
      where
        top : List A → ℕ
        top [] = 0
        top (x ∷ xs) = rank (name x) + top xs

        empty : (xs : List A) → All (λ x. rank (name x) < suc (top xs) → ⊥) xs → xs ≡ []
        empty [] h = refl
        empty (x ∷ xs) h = absurd (h.0 (omega arith))

  IsOrdered-snoc :
      (seen : List Uuid) (xs : List A) (x : A)
      → IsOrdered seen xs
      → All (λ d. contains (seen ++ names name deps xs) d ≡ true) (deps x)
      → IsOrdered seen (xs ++ (x ∷ []))
  IsOrdered-snoc seen [] x o h = (rw append-nil at h, tt)
  IsOrdered-snoc seen (y ∷ xs) x o h =
      (o.0, IsOrdered-snoc (seen ++ (name y ∷ [])) xs x o.1 (rw append_assoc h))

  pass-IsOrdered :
      (xs : List A) (p : Pass name deps)
      → IsOrdered [] p.ordered
      → IsOrdered [] (pass name deps p xs).ordered
  unfolding pass
  pass-IsOrdered [] p o = o
  pass-IsOrdered (x ∷ xs) p o = elim (Bool-cases (satisfied name deps p.ordered x)) [
    | inl ok ↦
        pass-IsOrdered xs (visit name deps p x)
          (rw ok (IsOrdered-snoc [] p.ordered x o (All-of_all _ (deps x) ok)))
    | inr waits ↦ pass-IsOrdered xs (visit name deps p x) (rw waits o)
  ]

  All-pass_kept :
      (Q : A → Type 0) (xs : List A) (p : Pass name deps)
      → All Q p.kept
      → All Q xs
      → All Q (pass name deps p xs).kept
  unfolding pass
  All-pass_kept Q [] p k h = k
  All-pass_kept Q (x ∷ xs) p k h =
      ground (arith, All-pass_kept Q xs (visit name deps p x), All-append Q p.kept (x ∷ []) k)

  abbrev has : List A → Uuid → Bool
  has xs d = contains (names name deps xs) d

  has-append : (xs ys : List A) (d : Uuid) → has (xs ++ ys) d ≡ (has xs d || has ys d)
  has-append xs ys d =
      ap (λ l. contains l d) (map-append name xs ys)
      ∙ contains-append (names name deps xs) (names name deps ys) d

  has-pass :
      (xs : List A) (p : Pass name deps) (d : Uuid)
      → (has (pass name deps p xs).ordered d || has (pass name deps p xs).kept d)
        ≡ (has p.ordered d || (has p.kept d || has xs d))
  unfolding pass
  has-pass [] p d = ground arith
  has-pass (x ∷ xs) p d = ground (
    arith,
    has-pass xs (visit name deps p x) d,
    has-append p.ordered (x ∷ []) d,
    has-append p.kept (x ∷ []) d,
  )

  has-start :
      (ordered rest : List A) (d : Uuid)
      → let p = pass name deps (start name deps ordered) rest in
        has (p.ordered ++ p.kept) d ≡ has (ordered ++ rest) d
  has-start ordered rest d =
      let p = pass name deps (start name deps ordered) rest in
      has-append p.ordered p.kept d
      ∙ (has-pass rest (start name deps ordered) d ∙ sym (has-append ordered rest d))

  has-rounds :
      (fuel : ℕ) (ordered rest : List A) (d : Uuid)
      → has (rounds name deps fuel ordered rest) d ≡ has (ordered ++ rest) d
  unfolding rounds
  has-rounds fuel ordered [] d = rw append-nil refl
  has-rounds zero ordered (x ∷ xs) d = refl
  has-rounds (suc fuel) ordered (x ∷ xs) d =
      let p = pass name deps (start name deps ordered) (x ∷ xs) in
      elim (Bool-cases p.progress) [
        | inl more ↦
            rw (more, rounds) (has-rounds fuel p.ordered p.kept d ∙ has-start ordered (x ∷ xs) d)
        | inr stuck ↦ rw (stuck, rounds) (has-start ordered (x ∷ xs) d)
      ]

  pub has-order :
      (xs : List A) (d : Uuid)
      → contains (names name deps (order name deps xs)) d ≡ contains (names name deps xs) d
  unfolding order
  has-order xs d = has-rounds (length xs) [] xs d

  module _ (rank : Uuid → ℕ) where
    rounds-IsOrdered :
        (fuel : ℕ) (ordered rest : List A)
        → length rest ≤ fuel
        → IsRanked rank rest
        → IsClosed (ordered ++ rest) rest
        → IsOrdered [] ordered
        → IsOrdered [] (rounds name deps fuel ordered rest)
    unfolding rounds
    rounds-IsOrdered fuel ordered [] enough ranked closed o = o
    rounds-IsOrdered zero ordered (x ∷ xs) enough ranked closed o = absurd (omega arith)
    rounds-IsOrdered (suc fuel) ordered (x ∷ xs) enough ranked closed o =
        let p = pass name deps (start name deps ordered) (x ∷ xs) in
        elim (Bool-cases p.progress) [
          | inl more ↦
              rw (more, rounds)
                (rounds-IsOrdered fuel p.ordered p.kept
                  (omega
                    (arith, pass-shrinks name deps (x ∷ xs) (start name deps ordered) more refl))
                  (All-pass_kept _ (x ∷ xs) (start name deps ordered) tt ranked)
                  (All-map (λ y. All-map (λ d there. has-start ordered (x ∷ xs) d ∙ there) (deps y))
                    p.kept (All-pass_kept _ (x ∷ xs) (start name deps ordered) tt closed))
                  (pass-IsOrdered (x ∷ xs) (start name deps ordered) o))
          | inr stuck ↦
              let (_, _, none_ready, _) =
                pass-progress name deps (x ∷ xs) (start name deps ordered) stuck in
              let none_left = rest-eq-nil rank ordered (x ∷ xs) ranked closed none_ready in cc
        ]

  -- Entries whose dependencies are entries and have no cycle all come behind their dependencies.
  pub order-IsOrdered :
      (rank : Uuid → ℕ) (xs : List A)
      → IsRanked rank xs
      → IsClosed xs xs
      → IsOrdered [] (order name deps xs)
  unfolding order
  order-IsOrdered rank xs ranked closed =
      rounds-IsOrdered rank (length xs) [] xs (omega arith) ranked closed tt
