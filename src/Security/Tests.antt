-- ===== src/Security/Tests.antt =====
-- A store with one key, and the theorems at it. The digest is a stand-in that keeps keys apart.
use ai_employee_os.Common.{
  String, ◌<>◌, ◌≡◌, ◌⊎◌, refl, true, false, Option, none, some, List, [], ◌∷◌, arith, string_eq,
}
use mathlib.Core.List.{reverse}
use ai_employee_os.Common.Dict.{lookup, insert}
use ai_employee_os.Common.Json.{Fields, end}
use ai_employee_os.Common.Sorting.{sort}
use ai_employee_os.Security.Models.{Role, ApiKey, AuditEvent, SecurityPrincipal}
use ai_employee_os.Security.Permissions.{
  by_code, has_permission, before_colon, permissions_for_role,
}
use ai_employee_os.Security.Provider.{
  SecurityStore, save_api_key, save_audit_event, list_audit_events,
}
use ai_employee_os.Security.Manager.{
  new_key, create_api_key, validate_api_key, revoke_api_key, record_audit,
}
use ai_employee_os.Security.RateLimit.{allow}
use ai_employee_os.Security.Middleware.{
  Request, SecurityState, answered, rejected, CallNext, audited, admitted, dispatch, is_exempt,
  identifier_of,
}
use ai_employee_os.Security.Access.{has_permission-role, dispatch_enabled}
use ai_employee_os.Security.Audit.{save_events, newest, save_events_lem}
use ai_employee_os.Security.Keys.{
  validates, creates, history, IsIndexed, revoke-validate, create-validate, HasAskedFor,
}

abbrev digest : String → String
digest raw = "sha:" <> raw

abbrev plain : Fields → Fields
plain fields = fields

abbrev key : ApiKey
key = new_key digest "aeo_1" "k1" 5 "ci" Role.service none none

abbrev store : SecurityStore
store = record {
  keys = ("k1", key) ∷ [];
  hash_index = ("sha:aeo_1", "k1") ∷ [];
  audit = [];
  max_events = 2;
}

program : Unit {0}
unfolding lookup insert string_eq create_api_key validate_api_key revoke_api_key record_audit
    save_api_key save_audit_event list_audit_events permissions_for_role sort has_permission
    before_colon allow dispatch is_exempt history save_events admitted
program = tt

service_default :
    permissions_for_role Role.service
    ≡ "artifacts:read" ∷ "documents:read" ∷ "execution:run" ∷ "workspace:read" ∷ []
unfolding program
service_default = refl

wildcard : has_permission Role.service (some ("security:*" ∷ [])) (by_code "security:keys") ≡ true
unfolding program
wildcard = refl

store-IsIndexed : IsIndexed store
unfolding lookup
store-IsIndexed id other stored = ground arith

revoke-validate_example :
    (validate_api_key digest 9 "aeo_1" (
      history digest plain
        (validates 7 "aeo_1" ∷ creates "aeo_2" "k2" 8 "x" Role.user none none ∷ [])
        (revoke_api_key "k1" store).1)).0
    ≡ none
unfolding program
revoke-validate_example =
    revoke-validate digest plain "k1" key "aeo_1" 9 store
      (validates 7 "aeo_1" ∷ creates "aeo_2" "k2" 8 "x" Role.user none none ∷ []) store-IsIndexed
      refl refl (tt, ((refl, refl), tt))

create-validate_example :
    let asked : Option (List String) = some ("x:y" ∷ []) in
    let (result, s') = create_api_key digest "aeo_3" "k3" 6 "bot" Role.user asked none store in
    (result.api_key ≡ "aeo_3")
    × (granted : List String) × ((validate_api_key digest 9 "aeo_3" s').0
        ≡ some (record {
          actor = "api_key:k3";
          api_key_id = some "k3";
          role = Role.user;
          permissions = granted;
        }))
    × HasAskedFor asked Role.user granted
unfolding program
create-validate_example =
    create-validate digest plain "aeo_3" "k3" 6 9 "bot" Role.user (some ("x:y" ∷ [])) none store

has_permission-role_example :
    has_permission Role.service (some ("x:y" ∷ [])) (by_code "execution:run") ≡ true
unfolding program
has_permission-role_example =
    has_permission-role Role.service (some ("x:y" ∷ [])) (by_code "execution:run") refl

abbrev event : String → AuditEvent
event action = record {
  id = "e";
  actor = "anonymous";
  action = action;
  resource = "/";
  timestamp = 0;
  trace_id = "-";
  metadata = end;
}

abbrev events : List AuditEvent
events = event "a" ∷ event "b" ∷ event "c" ∷ []

save_events_lem_example :
    ((save_events events store).audit ≡ newest 2 events)
    × (list_audit_events 1 (save_events events store) ≡ reverse (newest 1 events))
save_events_lem_example = save_events_lem events store 1 refl (omega arith) (omega arith)

abbrev request : Request
request = record {
  path = "/api/v1/artifacts";
  method = "GET";
  trace_id = "-";
  raw_key = some "aeo_1";
  client_host = some "10.0.0.1";
}

abbrev state : SecurityState
state = record {
  store = store;
  rate_limiter = record { limit = 1; window_seconds = 60; hits = [] };
}

abbrev whoami : CallNext
whoami p s = (answered p.actor, s)

first_request : (dispatch digest plain "e1" 9 true whoami request state).0 ≡ answered "api_key:k1"
unfolding program
first_request = refl

dispatch_enabled_example :
    let limited = allow state.rate_limiter (identifier_of request) 9 in
    let s' : SecurityState = record state { rate_limiter = limited.1 } in
    let result = dispatch digest plain "e1" 9 true whoami request state in
    ((limited.0 ≡ false) × (result.0 ≡ rejected 429 "Rate limit exceeded"))
    ⊎ ((limited.0 ≡ true) × (result.0 ≡ rejected 401 "Invalid or missing API key"))
    ⊎ ((raw : String) × (p : SecurityPrincipal) × (limited.0 ≡ true)
        × (request.raw_key ≡ some raw)
        × ((validate_api_key digest 9 raw state.store).0 ≡ some p)
        × (result
            ≡ whoami p (
                audited plain "e1" 9 p.actor "api_access" request
                  (record s' { store = (validate_api_key digest 9 raw state.store).1 }))))
unfolding program
dispatch_enabled_example = dispatch_enabled digest plain "e1" 9 whoami request state refl
