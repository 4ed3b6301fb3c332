-- ===== src/Skills/Registry/Search.antt =====
-- A search finds enabled skills' capabilities, each once.
use ai_employee_os.Common.{
  ◌≡◌, subst, String, true, false, Option, none, some, List, [], ◌∷◌, All, All-map, contains, arith,
  option-by, if-by, if-both, ◌==◌, string_eq,
}
use ai_employee_os.Common.Dict.{lookup}
use ai_employee_os.Skills.Registry.{
  Capability, CapabilityRegistry, find_capabilities, find_names, find_one, is_enabled, skill_id_of,
}

-- The capability that a name leads to, of an enabled skill
abbrev pub IsOffered : CapabilityRegistry → Capability → Type 0
IsOffered r c =
    (name : String) × (lookup name r.capabilities ≡ some c)
    × (is_enabled (lookup (skill_id_of (lookup name r.capability_to_skill)) r.skills) ≡ true)

-- The same, and not among those seen
abbrev IsFound : CapabilityRegistry → List String → Capability → Type 0
IsFound r seen c = (contains seen c.name ≡ false) × IsOffered r c

abbrev pub IsDistinct : List Capability → Type 0
IsDistinct [] = Unit
IsDistinct (c ∷ more) = All (λ (d : Capability). (d.name == c.name) ≡ false) more × IsDistinct more

abbrev WhenSome : (Capability → Type 0) → Option Capability → Type 0
WhenSome P none = Unit
WhenSome P (some c) = P c

find_one-IsFound :
    (r : CapabilityRegistry) (seen : List String) (name : String)
    → WhenSome (IsFound r seen) (find_one r seen name)
unfolding find_one
find_one-IsFound r seen name =
    option-by (WhenSome (IsFound r seen)) (lookup name r.capabilities) (λ _. tt)
      (λ c at.
        if-by (WhenSome (IsFound r seen))
          (is_enabled (lookup (skill_id_of (lookup name r.capability_to_skill)) r.skills))
          (λ enabled.
            if-by (WhenSome (IsFound r seen)) (contains seen c.name) {x = none} {y = some c}
              (λ _. tt) (λ unseen. (unseen, (name, at, enabled))))
          (λ _. tt))

find_names-IsFound :
    (r : CapabilityRegistry) (seen names : List String)
    → All (IsFound r seen) (find_names r seen names) × IsDistinct (find_names r seen names)
find_names-IsFound r seen [] = (tt, tt)
find_names-IsFound r seen (name ∷ names) =
    let one = find_one-IsFound r seen name in
    option-by (λ found. All (IsFound r seen) found × IsDistinct found) (find_one r seen name)
      (λ _. find_names-IsFound r seen names)
      (λ c at.
        let here : IsFound r seen c = subst (WhenSome (IsFound r seen)) at one in
        let (later, distinct) = find_names-IsFound r (c.name ∷ seen) names in
        (
          (here, All-map (λ d f. (ground arith, f.1)) (find_names r (c.name ∷ seen) names) later),
          (
            All-map (λ d f. ground (arith, f.0)) (find_names r (c.name ∷ seen) names) later,
            distinct,
          ),
        ))

-- The capabilities that a search by names returns have different names, and each is one that a name
-- leads to and of an enabled skill.
pub find_capabilities-IsDistinct :
    (names : List String) (r : CapabilityRegistry)
    → let found = find_capabilities (some names) r in IsDistinct found × All (IsOffered r) found
unfolding find_capabilities
find_capabilities-IsDistinct names r =
    let (all, distinct) = find_names-IsFound r [] names in
    if-both (λ found. IsDistinct found × All (IsOffered r) found) r.enabled
      (distinct, All-map (λ c f. f.1) (find_names r [] names) all) (tt, tt)
