-- ===== src/Security/Keys.antt =====
-- The life of an API key: what a created key gives access to, and that a revoked one stays so.
use ai_employee_os.Common.{
  ℕ, String, ◌<>◌, ◌≡◌, refl, sym, ◌∙◌, ap, inl, inr, Option, none, some, List, [], ◌∷◌, arith,
  string_eq, Option-cases, Bool-cases,
}
use ai_employee_os.Common.Dict.{lookup, lookup-insert, lookup-insert_self, lookup-insert_ne}
use ai_employee_os.Common.Json.{Fields, Uuid}
use ai_employee_os.Security.Models.{revoked, is_active, Role, ApiKey}
use ai_employee_os.Security.Permissions.{permissions_for_role}
use ai_employee_os.Security.Provider.{SecurityStore, save_api_key, save_audit_event}
use ai_employee_os.Security.Manager.{
  effective_permissions, touch, new_key, create_api_key, validate_api_key, as_revoked,
  revoke_api_key, record_audit,
}

-- Every key stands under its own id, and the index leads from its digest to it.
abbrev pub IsEntry : SecurityStore → Uuid × ApiKey → Type 0
IsEntry s (id, key) = (id ≡ key.id) × (lookup key.key_hash s.hash_index ≡ some id)

-- The index leads from the digest `h` to the key `id`, which is revoked.
pub record IsLocked (id : Uuid) (h : String) (s : SecurityStore) : Type 0 where
  pub indexed : lookup h s.hash_index ≡ some id
  pub key : ApiKey
  pub stored : lookup id s.keys ≡ some key
  pub dead : key.status ≡ revoked

abbrev pub IsIndexed : SecurityStore → Type 0
IsIndexed s = (id : Uuid) (key : ApiKey) → lookup id s.keys ≡ some key → IsEntry s (id, key)

-- The permissions asked for, and those of the role where the request names none
abbrev pub HasAskedFor : Option (List String) → Role → List String → Type 0
HasAskedFor none role granted = granted ≡ permissions_for_role role
HasAskedFor (some []) role granted = granted ≡ permissions_for_role role
HasAskedFor (some (p ∷ ps)) role granted = granted ≡ p ∷ ps

effective_permissions-HasAskedFor :
    (asked : Option (List String)) (role : Role)
    → HasAskedFor asked role (effective_permissions asked role)
effective_permissions-HasAskedFor none role = refl
effective_permissions-HasAskedFor (some []) role = refl
effective_permissions-HasAskedFor (some (p ∷ ps)) role = refl

-- Writing a key keeps the index right if its digest is new, or leads to this key.
save_api_key-IsIndexed :
    (key : ApiKey) (s : SecurityStore)
    → ((id : Uuid) → lookup key.key_hash s.hash_index ≡ some id → id ≡ key.id)
    → IsIndexed s
    → IsIndexed (save_api_key key s)
unfolding save_api_key
save_api_key-IsIndexed key s owned indexed id other stored = elim (string_eq.dec id key.id) [
  | yes same ↦ ground (
    arith,
    lookup-insert id key.id key s.keys,
    lookup-insert other.key_hash key.key_hash key.id s.hash_index,
  )
  | no differ ↦
      let (e, i) = indexed id other (sym (lookup-insert_ne key s.keys differ) ∙ stored) in
      (
        e,
        lookup-insert_ne key.id s.hash_index
              (λ h. differ (owned id (sym (ap (λ k. lookup k s.hash_index) h) ∙ i)))
            ∙ i,
      )
]

save_api_key-IsLocked :
    (key : ApiKey) (s : SecurityStore) (id : Uuid) (h : String)
    → (key.id ≡ id → key.status ≡ revoked)
    → (key.key_hash ≡ h → key.id ≡ id)
    → IsLocked id h s
    → IsLocked id h (save_api_key key s)
unfolding save_api_key
save_api_key-IsLocked key s id h dead owner l = elim (string_eq.dec id key.id) [
  | yes same ↦ record {
    indexed = ground (arith, lookup-insert h key.key_hash key.id s.hash_index, l.indexed);
    key = key;
    stored = ground (arith, lookup-insert id key.id key s.keys);
    dead = dead (sym same);
  }
  | no differ ↦ record {
    indexed = lookup-insert_ne key.id s.hash_index (λ e. differ (sym (owner (sym e)))) ∙ l.indexed;
    key = l.key;
    stored = lookup-insert_ne key s.keys differ ∙ l.stored;
    dead = l.dead;
  }
]

revoked-IsLocked :
    (id : Uuid) (key : ApiKey) (s : SecurityStore)
    → id ≡ key.id
    → IsLocked id key.key_hash (save_api_key (as_revoked key) s)
unfolding save_api_key
revoked-IsLocked id key s named = record {
  indexed = lookup-insert_self key.key_hash key.id s.hash_index ∙ ap some (sym named);
  key = as_revoked key;
  stored = ground (arith, lookup-insert id key.id (as_revoked key) s.keys);
  dead = refl;
}

-- Calls of the manager that touch the store.
pub data Call : Type 0 where
  creates :
      (raw : String) (id : Uuid) (now : ℕ)
      → String
      → Role
      → Option (List String)
      → Option Fields
      → Call
  validates : (now : ℕ) → String → Call
  revokes : Uuid → Call
  audits : (id : Uuid) (now : ℕ) (actor action resource trace_id : String) → Option Fields → Call

module _ (hash_key : String → String) (redact_mapping : Fields → Fields) where
  unfoldable pub perform : SecurityStore → Call → SecurityStore
  perform s (creates raw id now name role permissions metadata) =
      (create_api_key hash_key raw id now name role permissions metadata s).1
  perform s (validates now raw) = (validate_api_key hash_key now raw s).1
  perform s (revokes id) = (revoke_api_key id s).1
  perform s (audits id now actor action resource trace_id metadata) =
      record_audit redact_mapping id now actor action resource trace_id metadata s

  unfoldable pub history : List Call → SecurityStore → SecurityStore
  unfolding perform
  history [] s = s
  history (c ∷ cs) s = history cs (perform s c)

  -- A new key has an id and a digest that no key has yet.
  abbrev pub IsFresh : SecurityStore → Call → Type 0
  IsFresh s (creates raw id _ _ _ _ _) =
      (lookup (hash_key raw) s.hash_index ≡ none) × (lookup id s.keys ≡ none)
  IsFresh s _ = Unit

  abbrev pub AllFresh : List Call → SecurityStore → Type 0
  AllFresh [] s = Unit
  AllFresh (c ∷ cs) s = IsFresh s c × AllFresh cs (perform s c)

  -- The store keeps its keys indexed, and the key `id` with the digest `h` locked.
  abbrev Holds : Uuid → String → SecurityStore → Type 0
  Holds id h s = IsIndexed s × IsLocked id h s

  module _ (id : Uuid) (h : String) (s : SecurityStore) (holds : Holds id h s) where
    -- A key of the store may be written back if it keeps its digest, and stays revoked if it was.
    rewrite-Holds :
        (k : Uuid) (old key : ApiKey)
        → lookup k s.keys ≡ some old
        → key.id ≡ old.id
        → key.key_hash ≡ old.key_hash
        → (old.status ≡ revoked → key.status ≡ revoked)
        → Holds id h (save_api_key key s)
    rewrite-Holds k old key stored same_id same_hash stays =
        let (named, indexed) = holds.0 k old stored in
        (
          save_api_key-IsIndexed key s (λ j e. ground arith) holds.0,
          save_api_key-IsLocked key s id h
              (λ e. stays (ground (arith, holds.1.stored, holds.1.dead)))
              (λ e. ground (arith, holds.1.indexed)) holds.1,
        )

    perform-Holds : (c : Call) → IsFresh s c → Holds id h (perform s c)
    unfolding perform create_api_key validate_api_key revoke_api_key record_audit save_audit_event
    perform-Holds (creates raw new now name role permissions metadata) (no_hash, no_id) = (
      save_api_key-IsIndexed _ s (λ j e. ground arith) holds.0,
      save_api_key-IsLocked _ s id h (λ e. ground (arith, holds.1.stored))
          (λ e. ground (arith, holds.1.indexed)) holds.1,
    )
    perform-Holds (validates now raw) _ = elim (Option-cases (lookup (hash_key raw) s.hash_index)) [
      | inl unknown ↦ rw (unknown, perform) holds
      | inr (k, found) ↦ elim (Option-cases (lookup k s.keys)) [
        | inl missing ↦ rw (found, perform) (rw (missing, perform) holds)
        | inr (old, stored) ↦
            rw (found, perform)
              (rw (stored, perform)
                (elim (Bool-cases (is_active old.status)) [
                  | inl live ↦
                      rw (live, perform)
                        (rewrite-Holds k old (touch now old) stored refl refl (λ r. r))
                  | inr dead ↦ rw (dead, perform) holds
                ]))
      ]
    ]
    perform-Holds (revokes k) _ = elim (Option-cases (lookup k s.keys)) [
      | inl missing ↦ rw (missing, perform) holds
      | inr (old, stored) ↦
          rw (stored, perform) (rewrite-Holds k old (as_revoked old) stored refl refl (λ _. refl))
    ]
    perform-Holds (audits _ _ _ _ _ _ _) _ = (
      holds.0,
      record {
        indexed = holds.1.indexed;
        key = holds.1.key;
        stored = holds.1.stored;
        dead = holds.1.dead;
      },
    )

  history-Holds :
      (cs : List Call) (id : Uuid) (h : String) (s : SecurityStore)
      → AllFresh cs s
      → Holds id h s
      → Holds id h (history cs s)
  unfolding history
  history-Holds [] id h s fresh holds = holds
  history-Holds (c ∷ cs) id h s fresh holds =
      history-Holds cs id h (perform s c) fresh.1 (perform-Holds id h s holds c fresh.0)

  locked_invalid :
      (now : ℕ) (raw : String) (id : Uuid) (s : SecurityStore)
      → IsLocked id (hash_key raw) s
      → (validate_api_key hash_key now raw s).0 ≡ none
  unfolding validate_api_key
  locked_invalid now raw id s l =
      rw (l.indexed, validate_api_key)
        (rw (l.stored, validate_api_key) (rw (l.dead, validate_api_key)))

  revoke-Holds :
      (id : Uuid) (key : ApiKey) (s : SecurityStore)
      → IsIndexed s
      → lookup id s.keys ≡ some key
      → Holds id key.key_hash (revoke_api_key id s).1
  unfolding revoke_api_key
  revoke-Holds id key s indexed stored =
      rw (stored, revoke_api_key)
        (
          save_api_key-IsIndexed (as_revoked key) s (λ j e. ground (arith, indexed id key stored))
              indexed,
          revoked-IsLocked id key s (indexed id key stored).0,
        )

  -- A revoked key is never valid again, whatever keys are created, used and revoked afterwards, as
  -- long as new keys have ids and digests that no key has.
  pub revoke-validate :
      (id : Uuid) (key : ApiKey) (raw : String) (now : ℕ) (s : SecurityStore) (cs : List Call)
      → IsIndexed s
      → lookup id s.keys ≡ some key
      → hash_key raw ≡ key.key_hash
      → AllFresh cs (revoke_api_key id s).1
      → (validate_api_key hash_key now raw (history cs (revoke_api_key id s).1)).0 ≡ none
  revoke-validate id key raw now s cs indexed stored digest fresh = locked_invalid now raw id _ (
      rw digest (history-Holds cs id key.key_hash _ fresh (revoke-Holds id key s indexed stored)).1)

  -- The raw key that `create_api_key` returns is valid, with the role that was asked for and the
  -- permissions of the request or, where it names none, of the role.
  pub create-validate :
      (raw : String) (id : Uuid) (created used : ℕ) (name : String) (role : Role)
      (permissions : Option (List String)) (metadata : Option Fields) (s : SecurityStore)
      → let (result, s') =
          create_api_key hash_key raw id created name role permissions metadata s in
        (result.api_key ≡ raw)
        × (granted : List String) × ((validate_api_key hash_key used raw s').0
            ≡ some (record {
              actor = "api_key:" <> id;
              api_key_id = some id;
              role = role;
              permissions = granted;
            }))
        × HasAskedFor permissions role granted
  unfolding create_api_key validate_api_key save_api_key
  create-validate raw id created used name role permissions metadata s = (
    refl,
    _,
    rw (lookup-insert_self (hash_key raw) id s.hash_index, validate_api_key)
        (rw (
          lookup-insert_self id (new_key hash_key raw id created name role permissions metadata)
              s.keys,
          validate_api_key,
        )),
    effective_permissions-HasAskedFor permissions role,
  )
