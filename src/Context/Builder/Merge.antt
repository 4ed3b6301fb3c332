-- ===== src/Context/Builder/Merge.antt =====
-- Which provider's value the context has.
use ai_employee_os.Common.{
  ◌≡◌, refl, ap, ◌∙◌, String, true, false, Option, none, some, List, [], ◌∷◌, arith, if◌then◌else◌,
  if-by, ◌==◌, string_eq,
}
use ai_employee_os.Common.Json.{Json, Fields, end, field, get_field, get_field-set_field}
use ai_employee_os.Context.Builder.{
  merge_entry, merge_value, merge_fragment, merge_from, merge_fragments, is_extension,
}

abbrev newer : Json → Option Json → Option Json
newer Json.null old = old
newer value old = some value

-- The last value of the key in a fragment that is not None, or the old one
abbrev pub last_in : String → Fields → Option Json → Option Json
last_in key end old = old
last_in key (field k value rest) old = last_in key rest (if key == k then newer value old else old)

-- The same, of the fragments in their order
abbrev pub latest : String → List Fields → Option Json → Option Json
latest key [] old = old
latest key (fragment ∷ fragments) old = latest key fragments (last_in key fragment old)

get_field-merge_value :
    (key k : String) (value : Json) (merged : Fields)
    → get_field key (merge_value k value merged)
      ≡ (if key == k then newer value (get_field key merged) else get_field key merged)
get_field-merge_value key k Json.null merged = ground arith
get_field-merge_value key k (Json.boolean b) merged = get_field-set_field key k _ merged
get_field-merge_value key k (Json.number n) merged = get_field-set_field key k _ merged
get_field-merge_value key k (Json.string s) merged = get_field-set_field key k _ merged
get_field-merge_value key k (Json.array xs) merged = get_field-set_field key k _ merged
get_field-merge_value key k (Json.object fields) merged = get_field-set_field key k _ merged

is_extension-key :
    (k : String) (value : Json) → is_extension k value ≡ true → (k == "extensions") ≡ true
is_extension-key k (Json.object fields) h = h
is_extension-key k Json.null h = cc
is_extension-key k (Json.boolean b) h = cc
is_extension-key k (Json.number n) h = cc
is_extension-key k (Json.string s) h = cc
is_extension-key k (Json.array xs) h = cc

get_field-merge_entry :
    (key k : String) (value : Json) (merged : Fields)
    → (key == "extensions") ≡ false
    → get_field key (merge_entry k value merged)
      ≡ (if key == k then newer value (get_field key merged) else get_field key merged)
unfolding merge_entry
get_field-merge_entry key k value merged other =
    if-by
      (λ (x : Fields).
        get_field key x
        ≡ (if key == k then newer value (get_field key merged) else get_field key merged))
      (is_extension k value)
      (λ extension.
        let at_extensions = is_extension-key k value extension in
        let differ : (key == k) ≡ false = ground arith in
        get_field-set_field key "extensions" _ merged ∙ rw (other, differ) refl)
      (λ _. get_field-merge_value key k value merged)

get_field-merge_fragment :
    (key : String) (fragment merged : Fields)
    → (key == "extensions") ≡ false
    → get_field key (merge_fragment fragment merged) ≡ last_in key fragment (get_field key merged)
get_field-merge_fragment key end merged other = refl
get_field-merge_fragment key (field k value rest) merged other =
    get_field-merge_fragment key rest _ other
    ∙ ap (last_in key rest) (get_field-merge_entry key k value merged other)

get_field-merge_from :
    (key : String) (fragments : List Fields) (merged : Fields)
    → (key == "extensions") ≡ false
    → get_field key (merge_from fragments merged) ≡ latest key fragments (get_field key merged)
get_field-merge_from key [] merged other = refl
get_field-merge_from key (fragment ∷ fragments) merged other =
    get_field-merge_from key fragments _ other
    ∙ ap (latest key fragments) (get_field-merge_fragment key fragment merged other)

-- Of each key but `extensions` the merged fragments have the last value that is not None.
pub get_field-merge_fragments :
    (key : String) (fragments : List Fields)
    → (key == "extensions") ≡ false
    → get_field key (merge_fragments fragments) ≡ latest key fragments none
unfolding merge_fragments get_field
get_field-merge_fragments key fragments other = get_field-merge_from key fragments end other
