-- ===== src/Observability/Provider/Retention.antt =====
-- How many traces the provider keeps, and which one it lets go.
use ai_employee_os.Common.{
  ℕ, zero, suc, ◌-◌, ◌≤◌, ◌≡◌, ◌≢◌, refl, sym, ap, subst, ◌∙◌, String, true, none, some, List, [],
  ◌∷◌, ◌++◌, length, All, All-map, arith, List-cases, Option-cases, Bool-cases, leb, leb→le, ◌⊎◌,
  inl, inr, string_eq,
}
use ai_employee_os.Common.Dict.{
  Dict, lookup, insert, remove, values, NodupKeys, length-remove, length-values, insert-NodupKeys,
  All-insert, lookup-insert_self, length-insert_old, lookup-remove_ne, All-remove, remove-NodupKeys,
}
use ai_employee_os.Common.Sorting.{sort, All-sort, sort-eq-nil, sort-first_old}
use ai_employee_os.Observability.Models.{ExecutionTrace}
use ai_employee_os.Observability.Provider.{older, select_eviction_ids, enforce_retention}

abbrev pub Traces : Type 0
Traces = Dict String ExecutionTrace

-- Each trace stands under its own id.
abbrev pub IsOwn : String × ExecutionTrace → Type 0
IsOwn (id, trace) = trace.trace_id ≡ id

keys-known : (d : Traces) → All (λ (k, _). lookup k d ≢ none) d
unfolding lookup
keys-known [] = tt
keys-known ((k, v) ∷ d) =
    (ground arith, All-map (λ x known. ground (arith, known)) d (keys-known d))

values-known :
    (d e : Traces)
    → All (λ (k, _). lookup k d ≢ none) e
    → All IsOwn e
    → All (λ (t : ExecutionTrace). lookup t.trace_id d ≢ none) (values e)
unfolding values
values-known d [] known own = tt
values-known d ((k, v) ∷ e) known own =
    (subst (λ i. lookup i d ≢ none) (sym own.0) known.0, values-known d e known.1 own.1)

first_known :
    (d : Traces)
    → All IsOwn d
    → (oldest : ExecutionTrace) (rest : List ExecutionTrace) → sort older (values d) ≡ oldest ∷ rest
    → lookup oldest.trace_id d ≢ none
first_known d own oldest rest sorted =
    (subst (All (λ (t : ExecutionTrace). lookup t.trace_id d ≢ none)) sorted (
      All-sort older (λ (t : ExecutionTrace). lookup t.trace_id d ≢ none) (values d)
        (values-known d d (keys-known d) own))).0

-- With one trace too many the oldest goes, and with none too many they all stay.
pub enforce_retention-cases :
    (max_traces : ℕ) (d : Traces)
    → length d ≤ suc max_traces
    → ((length d ≤ max_traces) × (enforce_retention max_traces d ≡ d))
      ⊎ ((oldest : ExecutionTrace) × (rest : List ExecutionTrace) × (sort older (values d)
            ≡ oldest ∷ rest)
          × (enforce_retention max_traces d ≡ remove oldest.trace_id d)
          × (length d ≡ suc max_traces))
unfolding enforce_retention select_eviction_ids
enforce_retention-cases max_traces d bound = elim (Bool-cases (leb (length d) max_traces)) [
  | inl fits ↦
      let none_over : length d - max_traces ≡ zero = ground arith in
      inl (leb→le _ _ fits, rw none_over refl)
  | inr full ↦
      let one_over : length d - max_traces ≡ suc zero = ground arith in
      let exact : length d ≡ suc max_traces = ground arith in
      elim (List-cases (sort older (values d))) [
        | inl empty ↦
            let none_there = ap length (sort-eq-nil older (values d) empty) in
            absurd (omega (arith, exact, length-values d, none_there))
        | inr (oldest, rest, sorted) ↦ inr (oldest, rest, sorted, rw (one_over, sorted) refl, exact)
      ]
]

values-insert_new :
    (id : String) (trace : ExecutionTrace) (d : Traces)
    → lookup id d ≡ none
    → values (insert id trace d) ≡ values d ++ (trace ∷ [])
unfolding values insert lookup
values-insert_new id trace [] h = refl
values-insert_new id trace ((k, v) ∷ d) h = ground (arith, values-insert_new id trace d)

length-insert_bound :
    (id : String) (trace : ExecutionTrace) (d : Traces)
    → length (insert id trace d) ≤ suc (length d)
unfolding insert
length-insert_bound id trace [] = omega arith
length-insert_bound id trace (_ ∷ d) = ground (arith, length-insert_bound id trace d)

-- What the traces of a provider satisfy
pub record IsRetained (max_traces : ℕ) (d : Traces) : Type 0 where
  pub bounded : length d ≤ max_traces
  pub distinct : NodupKeys d
  pub own : All IsOwn d

pub enforce-IsRetained :
    (max_traces : ℕ) (trace : ExecutionTrace) (d : Traces)
    → IsRetained max_traces d
    → IsRetained max_traces (enforce_retention max_traces (insert trace.trace_id trace d))
enforce-IsRetained max_traces trace d r =
    let new = insert trace.trace_id trace d in
    let distinct = insert-NodupKeys trace.trace_id trace d r.distinct in
    let own = All-insert IsOwn trace.trace_id trace d refl r.own in
    elim (enforce_retention-cases max_traces new
      (omega (arith, length-insert_bound trace.trace_id trace d, r.bounded))) [
        | inl (fits, same) ↦
            subst (λ e. IsRetained max_traces e) (sym same)
              (record { bounded = fits; distinct = distinct; own = own })
        | inr (oldest, rest, sorted, gone, full) ↦
            let known = first_known new own oldest rest sorted in
            subst (λ e. IsRetained max_traces e) (sym gone)
              (record {
                bounded = omega (arith, length-remove oldest.trace_id new known, full);
                distinct = remove-NodupKeys oldest.trace_id new distinct;
                own = All-remove IsOwn oldest.trace_id new own;
              })
      ]

old-values :
    (trace : ExecutionTrace) (d : Traces)
    → All (λ (_, t). older t trace ≡ true) d
    → All (λ t. older t trace ≡ true) (values d)
unfolding values
old-values trace [] h = tt
old-values trace (_ ∷ d) h = (h.0, old-values trace d h.1)

-- A trace of the full store is new in it.
full-missing :
    (max_traces : ℕ) (trace : ExecutionTrace) (d : Traces)
    → length d ≤ max_traces
    → length (insert trace.trace_id trace d) ≡ suc max_traces
    → lookup trace.trace_id d ≡ none
full-missing max_traces trace d bounded full = elim (Option-cases (lookup trace.trace_id d)) [
  | inl missing ↦ missing
  | inr (there, found) ↦
      let same = length-insert_old trace.trace_id trace d (λ missing. cc) in
      absurd (omega (arith, same, bounded, full))
]

oldest_is_other :
    (max_traces : ℕ) (trace : ExecutionTrace) (d : Traces) (oldest : ExecutionTrace)
    (rest : List ExecutionTrace)
    → 1 ≤ max_traces
    → IsRetained max_traces d
    → All (λ (_, t). older t trace ≡ true) d
    → sort older (values (insert trace.trace_id trace d)) ≡ oldest ∷ rest
    → length (insert trace.trace_id trace d) ≡ suc max_traces
    → trace.trace_id ≢ oldest.trace_id
unfolding values
oldest_is_other max_traces trace [] oldest rest positive r old sorted full same =
    let one = length-insert_bound trace.trace_id trace [] in
    absurd (omega (arith, one, full, positive))
oldest_is_other max_traces trace ((k, v) ∷ d) oldest rest positive r old sorted full same =
    let missing = full-missing max_traces trace ((k, v) ∷ d) r.bounded full in
    let known =
      sort-first_old older (λ (t : ExecutionTrace). lookup t.trace_id ((k, v) ∷ d) ≢ none) v
        (values d) trace oldest rest
        (values-known ((k, v) ∷ d) ((k, v) ∷ d) (keys-known ((k, v) ∷ d)) r.own)
        (old-values trace ((k, v) ∷ d) old)
        (ap (sort older) (sym (values-insert_new trace.trace_id trace ((k, v) ∷ d) missing))
          ∙ sorted) in
    known (subst (λ i. lookup i ((k, v) ∷ d) ≡ none) same missing)

-- A trace that is saved is there afterwards, if no other began later.
pub lookup-enforce_saved :
    (max_traces : ℕ) (trace : ExecutionTrace) (d : Traces)
    → 1 ≤ max_traces
    → IsRetained max_traces d
    → All (λ (_, t). older t trace ≡ true) d
    → lookup trace.trace_id (enforce_retention max_traces (insert trace.trace_id trace d))
      ≡ some trace
lookup-enforce_saved max_traces trace d positive r old =
    let new = insert trace.trace_id trace d in
    elim (enforce_retention-cases max_traces new
      (omega (arith, length-insert_bound trace.trace_id trace d, r.bounded))) [
        | inl (fits, same) ↦
            ap (lookup trace.trace_id) same ∙ lookup-insert_self trace.trace_id trace d
        | inr (oldest, rest, sorted, gone, full) ↦
            ap (lookup trace.trace_id) gone
            ∙ (lookup-remove_ne new
                  (oldest_is_other max_traces trace d oldest rest positive r old sorted full)
                ∙ lookup-insert_self trace.trace_id trace d)
      ]

-- A trace that was there already makes no other go.
pub lookup-enforce_again :
    (max_traces : ℕ) (trace : ExecutionTrace) (d : Traces)
    → IsRetained max_traces d
    → lookup trace.trace_id d ≢ none
    → lookup trace.trace_id (enforce_retention max_traces (insert trace.trace_id trace d))
      ≡ some trace
lookup-enforce_again max_traces trace d r known =
    let new = insert trace.trace_id trace d in
    let same_length = length-insert_old trace.trace_id trace d known in
    elim (enforce_retention-cases max_traces new (omega (arith, same_length, r.bounded))) [
      | inl (fits, same) ↦
          ap (lookup trace.trace_id) same ∙ lookup-insert_self trace.trace_id trace d
      | inr (oldest, rest, sorted, gone, full) ↦
          absurd (omega (arith, same_length, r.bounded, full))
    ]
