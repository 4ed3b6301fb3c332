-- ===== src/Common/Dict.antt =====
-- Python's dict, in insertion order. Proofs go by the laws; tests unfold the operations.
use mathlib.Core.Path.{◌≡◌, refl, ap}
use mathlib.Core.Logic.{◌≢◌}
use mathlib.Core.Option.{Option, none, some}
use mathlib.Core.List.{List, [], ◌∷◌, ◌++◌}
use Prim.Native.Nat.{suc}
use mathlib.Core.List
use native.Mathlib.Omega.{arith}
use ai_employee_os.Common.Tests.{if◌then◌else◌}
use ai_employee_os.Common.Equality.{Eq, ◌==◌}
use ai_employee_os.Common.Lists.{length, All}

abbrev pub Dict {ℓ κ} : Type ℓ → Type κ → Type (ℓ ⊔ κ)
Dict K V = List (K × V)

-- `d.keys()` and `d.values()`
unfoldable pub keys {ℓ κ} : {K : Type ℓ} {V : Type κ} → Dict K V → List K
keys = List.map (λ (k, _). k)

unfoldable pub values {ℓ κ} : {K : Type ℓ} {V : Type κ} → Dict K V → List V
values = List.map (λ (_, v). v)

pub length-values {ℓ κ} : {K : Type ℓ} {V : Type κ} (d : Dict K V) → length (values d) ≡ length d
unfolding values
length-values [] = refl
length-values (_ ∷ d) = ap suc (length-values d)

module _ {ℓ κ} {K : Type ℓ} {V : Type κ} ⦃e : Eq K⦄ where
  -- `d.get(k)`
  unfoldable pub lookup : K → Dict K V → Option V
  lookup k [] = none
  lookup k ((j, v) ∷ d) = if k == j then some v else lookup k d

  -- `d[k] = v`: an entry that is there keeps its place.
  unfoldable pub insert : K → V → Dict K V → Dict K V
  insert k v [] = (k, v) ∷ []
  insert k v ((j, w) ∷ d) = if k == j then (k, v) ∷ d else (j, w) ∷ insert k v d

  -- `d.pop(k, None)`
  unfoldable pub remove : K → Dict K V → Dict K V
  remove k [] = []
  remove k ((j, w) ∷ d) = if k == j then d else (j, w) ∷ remove k d

  abbrev pub NodupKeys : Dict K V → Type κ
  NodupKeys [] = Unit
  NodupKeys ((k, _) ∷ d) = (lookup k d ≡ none) × NodupKeys d

  pub lookup-nil : (k : K) → lookup k [] ≡ none
  unfolding lookup
  lookup-nil k = refl

  pub lookup-cons :
      (j k : K) (v : V) (d : Dict K V)
      → lookup j ((k, v) ∷ d) ≡ (if j == k then some v else lookup j d)
  unfolding lookup
  lookup-cons j k v d = refl

  pub lookup-insert :
      (j k : K) (v : V) (d : Dict K V)
      → lookup j (insert k v d) ≡ (if j == k then some v else lookup j d)
  unfolding insert lookup
  lookup-insert j k v [] = refl
  lookup-insert j k v (_ ∷ d) = ground (arith, lookup-insert j k v d)

  pub lookup-insert_self : (k : K) (v : V) (d : Dict K V) → lookup k (insert k v d) ≡ some v
  lookup-insert_self k v d = ground (arith, lookup-insert k k v d)

  pub lookup-insert_ne :
      {j k : K} (v : V) (d : Dict K V) → j ≢ k → lookup j (insert k v d) ≡ lookup j d
  lookup-insert_ne {j} {k} v d h = ground (arith, lookup-insert j k v d)

  pub insert-NodupKeys : (k : K) (v : V) (d : Dict K V) → NodupKeys d → NodupKeys (insert k v d)
  unfolding insert
  insert-NodupKeys k v [] _ = (lookup-nil k, tt)
  insert-NodupKeys k v ((j, _) ∷ d) (fresh, u) =
      ground (arith, insert-NodupKeys k v d u, lookup-insert j k v d)

  -- A predicate of every entry survives a write of an entry that meets it.
  pub All-insert {μ} :
      (P : K × V → Type μ) (k : K) (v : V) (d : Dict K V)
      → P (k, v)
      → All P d
      → All P (insert k v d)
  unfolding insert
  All-insert P k v [] p a = (p, tt)
  All-insert P k v (_ ∷ d) p a = ground (arith, All-insert P k v d p a.1)

  pub All-lookup {μ} :
      (P : K × V → Type μ) (k : K) (v : V) (d : Dict K V) → All P d → lookup k d ≡ some v → P (k, v)
  unfolding lookup
  All-lookup P k v [] a h = cc
  All-lookup P k v ((j, w) ∷ d) a h = ground (arith, All-lookup P k v d a.1)

  pub length-insert_old :
      (k : K) (v : V) (d : Dict K V) → lookup k d ≢ none → length (insert k v d) ≡ length d
  unfolding insert lookup
  length-insert_old k v [] h = absurd (h refl)
  length-insert_old k v (_ ∷ d) h = ground (arith, length-insert_old k v d)

  -- The second write of a key wins.
  pub insert-insert : (k : K) (v w : V) (d : Dict K V) → insert k v (insert k w d) ≡ insert k v d
  unfolding insert
  insert-insert k v w [] = ground arith
  insert-insert k v w ((j, u) ∷ d) = ground (arith, insert-insert k v w d)

  pub lookup-remove_ne : {j k : K} (d : Dict K V) → j ≢ k → lookup j (remove k d) ≡ lookup j d
  unfolding remove lookup
  lookup-remove_ne [] h = refl
  lookup-remove_ne (_ ∷ d) h = ground (arith, lookup-remove_ne d h)

  pub length-remove :
      (k : K) (d : Dict K V) → lookup k d ≢ none → suc (length (remove k d)) ≡ length d
  unfolding remove lookup
  length-remove k [] h = absurd (h refl)
  length-remove k (_ ∷ d) h = ground (arith, length-remove k d)

  pub All-remove {μ} : (P : K × V → Type μ) (k : K) (d : Dict K V) → All P d → All P (remove k d)
  unfolding remove
  All-remove P k [] a = tt
  All-remove P k (_ ∷ d) a = ground (arith, All-remove P k d a.1)

  pub remove-NodupKeys : (k : K) (d : Dict K V) → NodupKeys d → NodupKeys (remove k d)
  unfolding remove
  remove-NodupKeys k [] u = tt
  remove-NodupKeys k ((j, _) ∷ d) (fresh, u) =
      ground (arith, remove-NodupKeys k d u, lookup-remove_ne {j = j} {k = k} d)

  pub length-insert_new :
      (k : K) (v : V) (d : Dict K V) → lookup k d ≡ none → length (insert k v d) ≡ suc (length d)
  unfolding insert lookup
  length-insert_new k v [] h = refl
  length-insert_new k v (_ ∷ d) h = ground (arith, length-insert_new k v d)

  -- A new entry stands at the end.
  pub insert-new :
      (k : K) (v : V) (d : Dict K V) → lookup k d ≡ none → insert k v d ≡ d ++ ((k, v) ∷ [])
  unfolding insert lookup
  insert-new k v [] h = refl
  insert-new k v (_ ∷ d) h = ground (arith, insert-new k v d)

  pub lookup-remove_self : (k : K) (d : Dict K V) → NodupKeys d → lookup k (remove k d) ≡ none
  unfolding remove lookup
  lookup-remove_self k [] u = refl
  lookup-remove_self k (_ ∷ d) (fresh, u) = ground (arith, lookup-remove_self k d u)
