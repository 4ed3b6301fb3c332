-- ===== src/Skills/Registry.antt =====
-- `CapabilityRegistry` of backend/app/skills/registry.py. A skill is what its methods `metadata` and
-- `capabilities` return.
pub mod Sound
pub mod Search
use ai_employee_os.Common.{
  String, Bool, true, false, not, Option, none, some, List, [], ◌∷◌, ◌++◌, map, contains,
  if◌then◌else◌, ◌==◌, ◌||◌, string_eq,
}
use ai_employee_os.Common.Dict.{Dict, lookup, insert, remove, values}

pub record Capability : Type 0 where
  pub name : String
  pub description : String
  pub category : String

pub record Skill : Type 0 where
  pub id : String
  pub enabled : Bool
  pub capabilities : List Capability

pub record CapabilityRegistry : Type 0 where
  pub enabled : Bool
  pub skills : Dict String Skill
  pub capabilities : Dict String Capability
  pub capability_to_skill : Dict String String

-- The loop of `register` over the skill's capabilities
unfoldable pub add_capabilities : String → List Capability → CapabilityRegistry → CapabilityRegistry
add_capabilities skill_id [] r = r
add_capabilities skill_id (capability ∷ more) r = add_capabilities skill_id more (record r {
  capabilities = insert capability.name capability r.capabilities;
  capability_to_skill = insert capability.name skill_id r.capability_to_skill;
})

-- False stands for SkillAlreadyRegisteredError.
unfoldable pub register : Skill → CapabilityRegistry → Bool × CapabilityRegistry
register skill r = elim (lookup skill.id r.skills) [
  | some there ↦ (false, r)
  | none ↦ (
    true,
    add_capabilities skill.id skill.capabilities
        (record r { skills = insert skill.id skill r.skills }),
  )
]

unfoldable pub remove_capabilities : List Capability → CapabilityRegistry → CapabilityRegistry
remove_capabilities [] r = r
remove_capabilities (capability ∷ more) r = remove_capabilities more (record r {
  capabilities = remove capability.name r.capabilities;
  capability_to_skill = remove capability.name r.capability_to_skill;
})

unfoldable pub unregister : String → CapabilityRegistry → Bool × CapabilityRegistry
unregister skill_id r = elim (lookup skill_id r.skills) [
  | none ↦ (false, r)
  | some skill ↦ (
    true,
    remove_capabilities skill.capabilities (record r { skills = remove skill_id r.skills }),
  )
]

unfoldable pub get_skill : String → CapabilityRegistry → Option Skill
get_skill skill_id r = lookup skill_id r.skills

unfoldable pub get_skill_for_capability : String → CapabilityRegistry → Option Skill
get_skill_for_capability name r = elim (lookup name r.capability_to_skill) [
  | none ↦ none
  | some skill_id ↦ lookup skill_id r.skills
]

abbrev listed : List Skill → List Capability
listed [] = []
listed (skill ∷ skills) =
    let rest = listed skills in if skill.enabled then skill.capabilities ++ rest else rest

unfoldable pub list_available : CapabilityRegistry → List Capability
list_available r = if r.enabled then listed (values r.skills) else []

-- The id of a capability's skill, or "" as for a capability that has none
abbrev skill_id_of : Option String → String
skill_id_of none = ""
skill_id_of (some skill_id) = skill_id

abbrev is_enabled : Option Skill → Bool
is_enabled none = false
is_enabled (some skill) = skill.enabled

-- The capability of a name, if it is known, its skill enabled and itself not yet among the results
unfoldable pub find_one : CapabilityRegistry → List String → String → Option Capability
find_one r seen name = elim (lookup name r.capabilities) [
  | none ↦ none
  | some capability ↦
      if is_enabled (lookup (skill_id_of (lookup name r.capability_to_skill)) r.skills)
      then if contains seen capability.name then none else some capability
      else none
]

abbrev find_names : CapabilityRegistry → List String → List String → List Capability
find_names r seen [] = []
find_names r seen (name ∷ names) =
    let skipped = find_names r seen names in
    elim (find_one r seen name) [
      | none ↦ skipped
      | some capability ↦ capability ∷ find_names r (capability.name ∷ seen) names
    ]

unfoldable pub find_capabilities : Option (List String) → CapabilityRegistry → List Capability
find_capabilities none r = list_available r
find_capabilities (some names) r = if r.enabled then find_names r [] names else []

unfoldable pub list_available_for_prompt : CapabilityRegistry → List (String × String)
list_available_for_prompt r = map (λ c. (c.name, c.description)) (list_available r)
