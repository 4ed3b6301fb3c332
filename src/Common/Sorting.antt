-- ===== src/Common/Sorting.antt =====
-- `list.sort(key=…)`: a stable sort by a Boolean comparison, written as insertion sort.
use mathlib.Core.Path.{◌≡◌, refl, subst}
use mathlib.Core.Logic.{◌⊎◌, inl, inr}
use mathlib.Core.Bool.{Bool, true}
use mathlib.Core.List.{List, [], ◌∷◌, ◌++◌}
use native.Mathlib.Omega.{arith}
use ai_employee_os.Common.Tests.{if◌then◌else◌, List-cases, Bool-cases}
use ai_employee_os.Common.Lists.{All, All-map}

module _ {ℓ} {A : Type ℓ} (before : A → A → Bool) where
  -- An entry goes in front of the entries of its own key, which stood behind it.
  unfoldable pub insert_sorted : A → List A → List A
  insert_sorted x [] = x ∷ []
  insert_sorted x (y ∷ ys) = if before x y then x ∷ y ∷ ys else y ∷ insert_sorted x ys

  unfoldable pub sort : List A → List A
  unfolding insert_sorted
  sort [] = []
  sort (x ∷ xs) = insert_sorted x (sort xs)

  All-insert_sorted {κ} :
      (P : A → Type κ) (x : A) (xs : List A) → P x → All P xs → All P (insert_sorted x xs)
  unfolding insert_sorted
  All-insert_sorted P x [] p h = (p, tt)
  All-insert_sorted P x (y ∷ ys) p h = ground (arith, All-insert_sorted P x ys p h.1)

  pub All-sort {κ} : (P : A → Type κ) (xs : List A) → All P xs → All P (sort xs)
  unfolding sort
  All-sort P [] h = tt
  All-sort P (x ∷ xs) h = All-insert_sorted P x (sort xs) h.0 (All-sort P xs h.1)

  All-of_insert_sorted {κ} :
      (P : A → Type κ) (x : A) (xs : List A) → All P (insert_sorted x xs) → P x × All P xs
  unfolding insert_sorted
  All-of_insert_sorted P x [] h = (h.0, tt)
  All-of_insert_sorted P x (y ∷ ys) h = ground (arith, All-of_insert_sorted P x ys)

  pub All-of_sort {κ} : (P : A → Type κ) (xs : List A) → All P (sort xs) → All P xs
  unfolding sort
  All-of_sort P [] h = tt
  All-of_sort P (x ∷ xs) h =
      let (here, rest) = All-of_insert_sorted P x (sort xs) h in (here, All-of_sort P xs rest)

  abbrev pub IsSorted : List A → Type 0
  IsSorted [] = Unit
  IsSorted (x ∷ xs) = All (λ y. before x y ≡ true) xs × IsSorted xs

  insert_sorted-ne_nil : (x : A) (xs : List A) → insert_sorted x xs ≡ [] → ⊥
  unfolding insert_sorted
  insert_sorted-ne_nil x [] h = cc
  insert_sorted-ne_nil x (y ∷ ys) h = ground arith

  pub sort-eq-nil : (xs : List A) → sort xs ≡ [] → xs ≡ []
  unfolding sort
  sort-eq-nil [] h = refl
  sort-eq-nil (x ∷ xs) h = absurd (insert_sorted-ne_nil x (sort xs) h)

  -- The laws of a key comparison.
  pub record IsOrder : Type ℓ where
    pub total : (a b : A) → (before a b ≡ true) ⊎ (before b a ≡ true)
    pub trans : (a b c : A) → before a b ≡ true → before b c ≡ true → before a c ≡ true

  module _ (order : IsOrder) where
    insert_sorted-IsSorted : (x : A) (xs : List A) → IsSorted xs → IsSorted (insert_sorted x xs)
    unfolding insert_sorted
    insert_sorted-IsSorted x [] h = (tt, tt)
    insert_sorted-IsSorted x (y ∷ ys) h = ground (
      arith,
      order.total x y,
      insert_sorted-IsSorted x ys h.1,
      All-insert_sorted (λ z. before y z ≡ true) x ys,
      λ (below : before x y ≡ true). All-map (λ z. order.trans x y z below) ys h.0,
    )

    pub sort-IsSorted : (xs : List A) → IsSorted (sort xs)
    unfolding sort
    sort-IsSorted [] = tt
    sort-IsSorted (x ∷ xs) = insert_sorted-IsSorted x (sort xs) (sort-IsSorted xs)

    -- The first entry comes before every entry of the list.
    pub sort-first :
        (xs : List A) (t : A) (rest : List A) → sort xs ≡ t ∷ rest → All (λ y. before t y ≡ true) xs
    sort-first xs t rest h =
        All-of_sort (λ y. before t y ≡ true) xs
          (rw h (ground (arith, order.total t t), (rw h at (sort-IsSorted xs)).0))

  insert_sorted-first {κ} :
      (P : A → Type κ) (x u t : A) (more rest : List A)
      → P x
      → P u
      → insert_sorted x (u ∷ more) ≡ t ∷ rest
      → P t
  unfolding insert_sorted
  insert_sorted-first P x u t more rest p q h = elim (Bool-cases (before x u)) [
    | inl first ↦ let found = rw first at h in let same : x ≡ t = cc in subst P same p
    | inr second ↦ let found = rw second at h in let same : u ≡ t = cc in subst P same q
  ]

  -- An entry behind all others is not the first one.
  pub sort-first_old {κ} :
      (P : A → Type κ) (x : A) (xs : List A) (y t : A) (rest : List A)
      → All P (x ∷ xs)
      → All (λ z. before z y ≡ true) (x ∷ xs)
      → sort ((x ∷ xs) ++ (y ∷ [])) ≡ t ∷ rest
      → P t
  unfolding sort insert_sorted
  sort-first_old P x [] y t rest all old h =
      let sorted = rw old.0 at h in let same : x ≡ t = cc in subst P same all.0
  sort-first_old P x (z ∷ zs) y t rest all old h = elim (List-cases (sort ((z ∷ zs) ++ (y ∷ [])))) [
    | inl none_left ↦ absurd (insert_sorted-ne_nil z (sort (zs ++ (y ∷ []))) none_left)
    | inr (u, more, sorted) ↦
        let inner = sort-first_old P z zs y u more all.1 old.1 sorted in
        insert_sorted-first P x u t more rest all.0 inner (rw sorted at h)
  ]
