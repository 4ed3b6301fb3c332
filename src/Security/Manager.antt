-- ===== src/Security/Manager.antt =====
-- `SecurityManager` of backend/app/security/manager.py, and `APIKeyProvider`. The digest of a key
-- (`hashlib`) and the redaction of metadata (secrets.py, regular expressions) are parameters.
use ai_employee_os.Common.{
  ℕ, String, ◌<>◌, Option, none, some, List, [], ◌∷◌, map, if◌then◌else◌, string_eq,
}
use mathlib.Core.Option
use ai_employee_os.Common.Json.{Fields, Uuid, end}
use ai_employee_os.Security.Models.{
  active, revoked, is_active, Role, ApiKey, ApiKeyCreateResult, ApiKeyInfo, AuditEvent,
  SecurityPrincipal,
}
use ai_employee_os.Security.Permissions.{permissions_for_role}
use ai_employee_os.Security.Provider.{
  SecurityStore, save_api_key, get_api_key, get_api_key_by_hash, list_api_keys, save_audit_event,
  list_audit_events,
}

-- `permissions or permissions_for_role(role)`: an empty list counts as none.
abbrev pub effective_permissions : Option (List String) → Role → List String
effective_permissions none role = permissions_for_role role
effective_permissions (some []) role = permissions_for_role role
effective_permissions (some (p ∷ ps)) role = p ∷ ps

abbrev pub or_end : Option Fields → Fields
or_end none = end
or_end (some fields) = fields

abbrev pub to_info : ApiKey → ApiKeyInfo
to_info key = record {
  id = key.id;
  name = key.name;
  status = key.status;
  role = key.role;
  permissions = key.permissions;
  created_at = key.created_at;
  last_used_at = key.last_used_at;
  metadata = key.metadata;
}

abbrev pub to_result : String → ApiKey → ApiKeyCreateResult
to_result raw key = record {
  id = key.id;
  name = key.name;
  api_key = raw;
  status = key.status;
  role = key.role;
  permissions = key.permissions;
  created_at = key.created_at;
  metadata = key.metadata;
}

-- `touch`
abbrev pub touch : ℕ → ApiKey → ApiKey
touch now key = record key { last_used_at = some now }

abbrev pub principal_of : ApiKey → SecurityPrincipal
principal_of key = record {
  actor = "api_key:" <> key.id;
  api_key_id = some key.id;
  role = key.role;
  permissions = key.permissions;
}

unfoldable pub get_key_info : Uuid → SecurityStore → Option ApiKeyInfo
get_key_info key_id s = Option.map to_info (get_api_key key_id s)

unfoldable pub list_keys : ℕ → SecurityStore → List ApiKeyInfo
list_keys limit s = map to_info (list_api_keys limit s)

unfoldable pub list_audit : ℕ → SecurityStore → List AuditEvent
list_audit limit s = list_audit_events limit s

unfoldable pub admit_key :
    ℕ → Option ApiKey → SecurityStore → Option SecurityPrincipal × SecurityStore
admit_key now none s = (none, s)
admit_key now (some key) s =
    if is_active key.status
    then (some (principal_of key), save_api_key (touch now key) s)
    else (none, s)

abbrev pub as_revoked : ApiKey → ApiKey
as_revoked key = record key { status = revoked }

revoke_key : Option ApiKey → SecurityStore → Option ApiKeyInfo × SecurityStore
revoke_key none s = (none, s)
revoke_key (some key) s = (some (to_info (as_revoked key)), save_api_key (as_revoked key) s)

unfoldable pub revoke_api_key : Uuid → SecurityStore → Option ApiKeyInfo × SecurityStore
unfolding revoke_key
revoke_api_key key_id s = revoke_key (get_api_key key_id s) s

module _ (hash_key : String → String) where
  abbrev pub new_key :
      (raw : String) (id : Uuid) (now : ℕ)
      → String
      → Role
      → Option (List String)
      → Option Fields
      → ApiKey
  new_key raw id now name role permissions metadata = record {
    id = id;
    name = name;
    key_hash = hash_key raw;
    status = active;
    role = role;
    permissions = effective_permissions permissions role;
    created_at = now;
    last_used_at = none;
    metadata = or_end metadata;
  }

  -- `raw` is what `generate_raw_key` returns, and `id` what `uuid4` does.
  unfoldable pub create_api_key :
      (raw : String) (id : Uuid) (now : ℕ)
      → String
      → Role
      → Option (List String)
      → Option Fields
      → SecurityStore
      → ApiKeyCreateResult × SecurityStore
  create_api_key raw id now name role permissions metadata s =
      let key = new_key raw id now name role permissions metadata in
      (to_result raw key, save_api_key key s)

  unfoldable pub validate_api_key :
      (now : ℕ) → String → SecurityStore → Option SecurityPrincipal × SecurityStore
  unfolding admit_key
  validate_api_key now raw_key s = admit_key now (get_api_key_by_hash (hash_key raw_key) s) s

unfoldable pub record_audit :
    (redact_mapping : Fields → Fields) (id : Uuid) (now : ℕ)
    (actor action resource trace_id : String)
    → Option Fields
    → SecurityStore
    → SecurityStore
record_audit redact_mapping id now actor action resource trace_id metadata s =
    save_audit_event
      (record {
        id = id;
        actor = actor;
        action = action;
        resource = resource;
        timestamp = now;
        trace_id = trace_id;
        metadata = redact_mapping (or_end metadata);
      })
      s
