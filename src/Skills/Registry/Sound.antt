-- ===== src/Skills/Registry/Sound.antt =====
-- A capability leads to a registered skill that has it.
use ai_employee_os.Common.{
  ◌≡◌, ◌≢◌, refl, sym, ap, subst, ◌∙◌, String, Bool, true, false, Option, none, some, List, [], ◌∷◌,
  contains, arith, ◌==◌, string_eq, option-by, Bool-cases, inl, inr, ==→eq, ==_refl,
}
use ai_employee_os.Common.Dict.{
  Dict, lookup, remove, NodupKeys, lookup-insert, lookup-insert_self, lookup-insert_ne,
  lookup-remove_self, lookup-remove_ne, insert-NodupKeys, remove-NodupKeys,
}
use ai_employee_os.Skills.Registry.{
  Capability, Skill, CapabilityRegistry, add_capabilities, register, remove_capabilities,
  unregister, get_skill_for_capability,
}

pub data Call : Type 0 where
  registers : Skill → Call
  unregisters : String → Call

unfoldable pub perform : Call → CapabilityRegistry → CapabilityRegistry
perform (Call.registers skill) r = (register skill r).1
perform (Call.unregisters skill_id) r = (unregister skill_id r).1

unfoldable pub after_calls : List Call → CapabilityRegistry → CapabilityRegistry
after_calls [] r = r
after_calls (call ∷ calls) r = after_calls calls (perform call r)

abbrev pub names : List Capability → List String
names [] = []
names (capability ∷ more) = capability.name ∷ names more

-- The skill is registered, and has the capability.
abbrev pub Provides : String → String → Dict String Skill → Type 0
Provides skill_id name skills =
    (skill : Skill) × (lookup skill_id skills ≡ some skill)
    × (contains (names skill.capabilities) name ≡ true)

pub record IsSound (r : CapabilityRegistry) : Type 0 where
  pub distinct : NodupKeys r.capability_to_skill
  pub provided :
      (name skill_id : String)
      → lookup name r.capability_to_skill ≡ some skill_id
      → Provides skill_id name r.skills

add_capabilities-IsSound :
    (skill : Skill) (more : List Capability) (r : CapabilityRegistry)
    → lookup skill.id r.skills ≡ some skill
    → ((name : String)
        → contains (names more) name ≡ true
        → contains (names skill.capabilities) name ≡ true)
    → IsSound r
    → IsSound (add_capabilities skill.id more r)
unfolding add_capabilities
add_capabilities-IsSound skill [] r found part s = s
add_capabilities-IsSound skill (capability ∷ more) r found part s =
    add_capabilities-IsSound skill more _ found (λ name h. part name (ground arith))
      (record {
        distinct = insert-NodupKeys capability.name skill.id r.capability_to_skill s.distinct;
        provided = λ name skill_id at. elim (Bool-cases (name == capability.name)) [
          | inl hit ↦
              let at_once = lookup-insert name capability.name skill.id r.capability_to_skill in
              let same : skill.id ≡ skill_id = ground arith in
              (
                skill,
                subst (λ i. lookup i r.skills ≡ some skill) same found,
                part name (ground arith),
              )
          | inr miss ↦
              s.provided name skill_id
                (ground (arith, lookup-insert name capability.name skill.id r.capability_to_skill))
        ];
      })

register-IsSound :
    (skill : Skill) (r : CapabilityRegistry) → IsSound r → IsSound (register skill r).1
unfolding register
register-IsSound skill r s =
    option-by (λ (x : Bool × CapabilityRegistry). IsSound x.1) (lookup skill.id r.skills)
      (λ missing.
        add_capabilities-IsSound skill skill.capabilities _
          (lookup-insert_self skill.id skill r.skills) (λ name h. h)
          (record {
            distinct = s.distinct;
            provided = λ name skill_id at.
                let (other, found, has) = s.provided name skill_id at in
                (
                  other,
                  lookup-insert_ne skill r.skills (λ same.
                        let again = subst (λ i. lookup i r.skills ≡ some other) same found in cc)
                      ∙ found,
                  has,
                );
          }))
      (λ there _. s)

remove_capabilities-lookup :
    (more : List Capability) (r : CapabilityRegistry) (name skill_id : String)
    → NodupKeys r.capability_to_skill
    → lookup name (remove_capabilities more r).capability_to_skill ≡ some skill_id
    → (lookup name r.capability_to_skill ≡ some skill_id) × (contains (names more) name ≡ false)
unfolding remove_capabilities
remove_capabilities-lookup [] r name skill_id u at = (at, refl)
remove_capabilities-lookup (capability ∷ more) r name skill_id u at =
    let (left, rest) =
      remove_capabilities-lookup more _ name skill_id
        (remove-NodupKeys capability.name r.capability_to_skill u) at in
    elim (Bool-cases (name == capability.name)) [
      | inl hit ↦
          let same = ==→eq name capability.name hit in
          let gone =
            subst (λ i. lookup i (remove capability.name r.capability_to_skill) ≡ none) (sym same)
              (lookup-remove_self capability.name r.capability_to_skill u) in
          absurd cc
      | inr miss ↦
          let differ : name ≢ capability.name = ground arith in
          (sym (lookup-remove_ne r.capability_to_skill differ) ∙ left, ground arith)
    ]

remove_capabilities-distinct :
    (more : List Capability) (r : CapabilityRegistry)
    → NodupKeys r.capability_to_skill
    → NodupKeys (remove_capabilities more r).capability_to_skill
unfolding remove_capabilities
remove_capabilities-distinct [] r u = u
remove_capabilities-distinct (capability ∷ more) r u =
    remove_capabilities-distinct more _ (remove-NodupKeys capability.name r.capability_to_skill u)

skills-remove_capabilities :
    (more : List Capability) (r : CapabilityRegistry)
    → (remove_capabilities more r).skills ≡ r.skills
unfolding remove_capabilities
skills-remove_capabilities [] r = refl
skills-remove_capabilities (capability ∷ more) r = skills-remove_capabilities more _

unregister-IsSound :
    (skill_id : String) (r : CapabilityRegistry) → IsSound r → IsSound (unregister skill_id r).1
unfolding unregister
unregister-IsSound gone r s =
    option-by (λ (x : Bool × CapabilityRegistry). IsSound x.1) (lookup gone r.skills) (λ _. s)
      (λ skill found.
        let left = record r { skills = remove gone r.skills } in
        record {
          distinct = remove_capabilities-distinct skill.capabilities left s.distinct;
          provided = λ name skill_id at.
              let (before, none_of) =
                remove_capabilities-lookup skill.capabilities left name skill_id s.distinct at in
              let (other, registered, has) = s.provided name skill_id before in
              (
                other,
                ap (lookup skill_id) (skills-remove_capabilities skill.capabilities left)
                    ∙ (lookup-remove_ne r.skills (λ same.
                          let again = subst (λ i. lookup i r.skills ≡ some other) same registered in
                          let one : other ≡ skill = cc in
                          let has_it =
                            subst (λ (k : Skill). contains (names k.capabilities) name ≡ true) one
                              has in
                          cc)
                        ∙ registered),
                has,
              );
        })

get_skill_for_capability-known :
    (name skill_id : String) (r : CapabilityRegistry)
    → lookup name r.capability_to_skill ≡ some skill_id
    → get_skill_for_capability name r ≡ lookup skill_id r.skills
unfolding get_skill_for_capability
get_skill_for_capability-known name skill_id r at =
    option-by (λ (x : Option Skill). x ≡ lookup skill_id r.skills)
      (lookup name r.capability_to_skill) (λ missing. cc)
      (λ there again. let same : there ≡ skill_id = cc in ap (λ i. lookup i r.skills) same)

perform-IsSound : (call : Call) (r : CapabilityRegistry) → IsSound r → IsSound (perform call r)
unfolding perform
perform-IsSound (Call.registers skill) r s = register-IsSound skill r s
perform-IsSound (Call.unregisters skill_id) r s = unregister-IsSound skill_id r s

pub after_calls-IsSound :
    (calls : List Call) (r : CapabilityRegistry) → IsSound r → IsSound (after_calls calls r)
unfolding after_calls
after_calls-IsSound [] r s = s
after_calls-IsSound (call ∷ calls) r s = after_calls-IsSound calls _ (perform-IsSound call r s)

-- After any registrations and removals from a sound registry, a capability that leads to a skill
-- leads to a registered one that has it: `get_skill_for_capability` finds it.
pub get_skill_for_capability-after_calls :
    (calls : List Call) (r : CapabilityRegistry) (name skill_id : String)
    → IsSound r
    → let new = after_calls calls r in
      lookup name new.capability_to_skill ≡ some skill_id
      → (skill : Skill) × (get_skill_for_capability name new ≡ some skill)
        × (lookup skill_id new.skills ≡ some skill)
        × (contains (names skill.capabilities) name ≡ true)
get_skill_for_capability-after_calls calls r name skill_id s at =
    let (skill, found, has) = (after_calls-IsSound calls r s).provided name skill_id at in
    (
      skill,
      get_skill_for_capability-known name skill_id (after_calls calls r) at ∙ found,
      found,
      has,
    )

-- Two registered skills have a capability. With one of them removed nothing is found for the
-- capability, though the other is registered still and has it.
pub unregister-shared :
    (a b : Skill) (name : String) (r : CapabilityRegistry)
    → IsSound r
    → lookup a.id r.skills ≡ some a
    → lookup b.id r.skills ≡ some b
    → (b.id == a.id) ≡ false
    → contains (names a.capabilities) name ≡ true
    → contains (names b.capabilities) name ≡ true
    → let new = (unregister a.id r).1 in
      (get_skill_for_capability name new ≡ none) × (lookup b.id new.skills ≡ some b)
unfolding unregister get_skill_for_capability
unregister-shared a b name r s at_a at_b differ has_a has_b =
    let P : Bool × CapabilityRegistry → Type 0 =
      λ x. (get_skill_for_capability name x.1 ≡ none) × (lookup b.id x.1.skills ≡ some b) in
    option-by P (lookup a.id r.skills) (λ missing. absurd cc)
      (λ skill found.
        let same : skill ≡ a = cc in
        let left = record r { skills = remove a.id r.skills } in
        subst (λ (k : Skill). P (true, remove_capabilities k.capabilities left)) (sym same)
          (
            option-by (λ (x : Option Skill). x ≡ none)
                (lookup name (remove_capabilities a.capabilities left).capability_to_skill)
                (λ _. refl)
                (λ skill_id at.
                  let (_, none_of) =
                    remove_capabilities-lookup a.capabilities left name skill_id s.distinct at in
                  absurd cc),
            ap (lookup b.id) (skills-remove_capabilities a.capabilities left)
                ∙ (lookup-remove_ne r.skills
                      (λ equal. let hit = ap (λ i. i == a.id) equal ∙ ==_refl a.id in cc)
                    ∙ at_b),
          ))
