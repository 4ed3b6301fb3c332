-- ===== src/Skills/Tests.antt =====
-- Two skills that share a capability.
use ai_employee_os.Common.{◌≡◌, refl, true, none, some, [], ◌∷◌, All, contains, string_eq}
use ai_employee_os.Common.Dict.{lookup, insert, remove}
use ai_employee_os.Skills.Registry.{
  Capability, Skill, CapabilityRegistry, get_skill_for_capability, find_capabilities, unregister,
  register, add_capabilities,
}
use ai_employee_os.Skills.Registry.Sound.{
  Call, after_calls, perform, names, IsSound, after_calls-IsSound,
  get_skill_for_capability-after_calls, unregister-shared,
}
use ai_employee_os.Skills.Registry.Search.{IsDistinct, IsOffered, find_capabilities-IsDistinct}

abbrev writing : Capability
writing = record { name = "writing"; description = "Writes"; category = "text" }

abbrev one : Skill
one = record { id = "one"; enabled = true; capabilities = writing ∷ [] }

abbrev two : Skill
two = record { id = "two"; enabled = true; capabilities = writing ∷ [] }

abbrev nothing : CapabilityRegistry
nothing = record { enabled = true; skills = []; capabilities = []; capability_to_skill = [] }

abbrev both : CapabilityRegistry
both = after_calls (Call.registers one ∷ Call.registers two ∷ []) nothing

unfoldable program : Unit {0}
unfolding lookup insert remove string_eq register add_capabilities perform after_calls
program = tt

nothing-IsSound : IsSound nothing
unfolding program
nothing-IsSound = record { distinct = tt; provided = λ name skill_id at. cc }

both-IsSound : IsSound both
both-IsSound =
    after_calls-IsSound (Call.registers one ∷ Call.registers two ∷ []) nothing nothing-IsSound

get_skill_for_capability-after_calls_example :
    let new = after_calls (Call.registers one ∷ Call.registers two ∷ []) nothing in
    (skill : Skill) × (get_skill_for_capability "writing" new ≡ some skill)
    × (lookup "two" new.skills ≡ some skill)
    × (contains (names skill.capabilities) "writing" ≡ true)
unfolding program
get_skill_for_capability-after_calls_example =
    get_skill_for_capability-after_calls (Call.registers one ∷ Call.registers two ∷ []) nothing
      "writing" "two" nothing-IsSound refl

find_capabilities-IsDistinct_example :
    let found = find_capabilities (some ("writing" ∷ "writing" ∷ [])) both in
    IsDistinct found × All (IsOffered both) found
find_capabilities-IsDistinct_example =
    find_capabilities-IsDistinct ("writing" ∷ "writing" ∷ []) both

unregister-shared_example :
    let new = (unregister "one" both).1 in
    (get_skill_for_capability "writing" new ≡ none) × (lookup "two" new.skills ≡ some two)
unfolding program
unregister-shared_example =
    unregister-shared one two "writing" both both-IsSound refl refl refl refl refl
