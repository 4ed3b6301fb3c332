-- ===== src/Security/Provider.antt =====
-- `InMemorySecurityProvider` of backend/app/security/providers/in_memory_provider.py, with the
-- retention policy of policies/retention_policy.py. The state also holds the clock.
use ai_employee_os.Common.{
  ℕ, ◌-◌, String, Option, none, some, List, [], ◌∷◌, ◌++◌, leb, eqb, if◌then◌else◌, string_eq,
  length, take, drop,
}
use mathlib.Core.List.{reverse}
use ai_employee_os.Common.Dict.{Dict, lookup, insert, values}
use ai_employee_os.Common.Json.{Uuid}
use ai_employee_os.Common.Sorting.{sort}
use ai_employee_os.Security.Models.{ApiKey, AuditEvent}

pub record SecurityStore : Type 0 where
  pub keys : Dict Uuid ApiKey
  pub hash_index : Dict String Uuid
  pub audit : List AuditEvent
  pub max_events : ℕ

unfoldable pub save_api_key : ApiKey → SecurityStore → SecurityStore
save_api_key key s = record s {
  keys = insert key.id key s.keys;
  hash_index = insert key.key_hash key.id s.hash_index;
}

abbrev pub get_api_key : Uuid → SecurityStore → Option ApiKey
get_api_key key_id s = lookup key_id s.keys

abbrev get_indexed : SecurityStore → Option Uuid → Option ApiKey
get_indexed s none = none
get_indexed s (some key_id) = lookup key_id s.keys

abbrev pub get_api_key_by_hash : String → SecurityStore → Option ApiKey
get_api_key_by_hash key_hash s = get_indexed s (lookup key_hash s.hash_index)

-- `sorted(…, key=created_at, reverse=True)` is stable.
unfoldable pub list_api_keys : ℕ → SecurityStore → List ApiKey
list_api_keys limit s = take limit (sort (λ a b. leb b.created_at a.created_at) (values s.keys))

abbrev pub overflow : ℕ → ℕ → ℕ
overflow max_events count = count - max_events

-- `self._audit = self._audit[overflow:]` where there is an overflow
unfoldable pub save_audit_event : AuditEvent → SecurityStore → SecurityStore
save_audit_event event s =
    let audit = s.audit ++ (event ∷ []) in
    let n = overflow s.max_events (length audit) in
    record s { audit = if eqb n 0 then audit else drop n audit }

-- `self._audit[-limit:]`: at a limit of 0 that is the whole list.
abbrev pub last_events : ℕ → List AuditEvent → List AuditEvent
last_events limit audit = if eqb limit 0 then audit else drop (length audit - limit) audit

unfoldable pub list_audit_events : ℕ → SecurityStore → List AuditEvent
list_audit_events limit s = reverse (last_events limit s.audit)
