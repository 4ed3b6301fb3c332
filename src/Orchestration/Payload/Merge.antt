-- ===== src/Orchestration/Payload/Merge.antt =====
-- What the results of the dependencies make of a payload.
use ai_employee_os.Common.{
  String, ◌≡◌, refl, ap, subst, ◌∙◌, true, false, inl, inr, Option, none, some, List, [], ◌∷◌,
  arith, if◌then◌else◌, contains, string_eq, ◌==◌, ==→eq, ==_refl, Bool-cases,
}
use ai_employee_os.Common.Dict.{Dict, lookup}
use ai_employee_os.Common.Json.{get_field, get_field-set_field, Json, Fields}
use ai_employee_os.Orchestration.Models.{Uuid}
use ai_employee_os.Orchestration.Payload.{
  present, merge_keys, take_key, take_keys, fill_representation, take_result, take_results,
}

abbrev newer : Option Json → Option Json → Option Json
newer none old = old
newer (some v) old = some v

abbrev found : String → Option Fields → Option Json
found key none = none
found key (some result) = present (get_field key result)

-- The value of the last dependency that has one, or else the old one.
abbrev pub latest : String → Dict Uuid Fields → List Uuid → Option Json → Option Json
latest key completed [] old = old
latest key completed (dep_id ∷ deps) old =
    latest key completed deps (newer (found key (lookup dep_id completed)) old)

get_field-take_key :
    (k j : String) (o : Option Json) (payload : Fields)
    → get_field k (take_key o j payload)
      ≡ (if k == j then newer o (get_field k payload) else get_field k payload)
get_field-take_key k j none payload = ground arith
get_field-take_key k j (some v) payload = get_field-set_field k j v payload

newer-newer : (o p : Option Json) → newer o (newer o p) ≡ newer o p
newer-newer none p = refl
newer-newer (some v) p = refl

get_field-take_keys :
    (k : String) (result : Fields) (keys : List String) (payload : Fields)
    → get_field k (take_keys result keys payload) ≡ (
        if contains keys k
        then newer (present (get_field k result)) (get_field k payload)
        else get_field k payload)
unfolding take_keys
get_field-take_keys k result [] payload = refl
get_field-take_keys k result (j ∷ keys) payload =
    let taken = get_field-take_key k j (present (get_field j result)) payload in
    get_field-take_keys k result keys (take_key (present (get_field j result)) j payload)
    ∙ elim (Bool-cases (k == j)) [
      | inl same ↦
          let hit : get_field k (take_key (present (get_field j result)) j payload)
              ≡ newer (present (get_field k result)) (get_field k payload) =
            subst
              (λ i.
                get_field k (take_key (present (get_field i result)) i payload)
                ≡ newer (present (get_field k result)) (get_field k payload))
              (==→eq k j same)
              (get_field-take_key k k (present (get_field k result)) payload ∙ rw ==_refl refl) in
          rw (same, hit)
            (elim (Bool-cases (contains keys k)) [
              | inl again ↦
                  rw again (newer-newer (present (get_field k result)) (get_field k payload))
              | inr last ↦ rw last refl
            ])
      | inr other ↦ rw (other, taken) (rw other refl)
    ]

get_field-fill_representation :
    (k : String) (r old : Option Json) (payload : Fields)
    → (k == "document_representation") ≡ false
    → get_field k (fill_representation r old payload) ≡ get_field k payload
get_field-fill_representation k none old payload h = refl
get_field-fill_representation k (some r) (some old) payload h = refl
get_field-fill_representation k (some r) none payload h =
    ground (arith, get_field-set_field k "document_representation" r payload)

module _ (k : String) (merged : contains merge_keys k ≡ true)
    (other : (k == "document_representation") ≡ false) where
  get_field-take_result :
      (o : Option Fields) (payload : Fields)
      → get_field k (take_result o payload) ≡ newer (found k o) (get_field k payload)
  unfolding take_result
  get_field-take_result none payload = refl
  get_field-take_result (some result) payload =
      get_field-fill_representation k (get_field "representation" result) _ _ other
      ∙ (get_field-take_keys k result merge_keys payload ∙ rw merged refl)

  -- Of each merged key but that of the document's representation a payload has the value of the
  -- last dependency whose result has one, and its own where there is none.
  pub get_field-take_results :
      (completed : Dict Uuid Fields) (deps : List Uuid) (payload : Fields)
      → get_field k (take_results completed deps payload)
        ≡ latest k completed deps (get_field k payload)
  unfolding take_results
  get_field-take_results completed [] payload = refl
  get_field-take_results completed (dep_id ∷ deps) payload =
      get_field-take_results completed deps (take_result (lookup dep_id completed) payload)
      ∙ ap (latest k completed deps) (get_field-take_result (lookup dep_id completed) payload)
