-- ===== src/Security/Access.antt =====
-- Who gets past the middleware, and what the permission tables allow.
use ai_employee_os.Common.{
  contains-append, ℕ, String, ◌<>◌, ◌≡◌, ◌∙◌, ◌⊎◌, inl, inr, Bool, true, false, Option, none, some,
  List, arith, contains, string_eq, Option-cases, Bool-cases,
}
use ai_employee_os.Common.Json.{Fields, Uuid}
use ai_employee_os.Security.Models.{Role, SecurityPrincipal}
use ai_employee_os.Security.RateLimit.{allow}
use ai_employee_os.Security.Permissions.{
  Required, required_code, or_empty, role_permissions, before_colon, has_permission,
}
use ai_employee_os.Security.Manager.{validate_api_key}
use ai_employee_os.Security.Middleware.{
  Request, SecurityState, rejected, is_exempt, nonempty, identifier_of, CallNext, audited, admitted,
  dispatch,
}

-- Permissions granted to a key add to those of its role, and never take one away.
pub has_permission-role :
    (role : Role) (granted : Option (List String)) (required : Required)
    → has_permission role none required ≡ true
    → has_permission role granted required ≡ true
unfolding has_permission
has_permission-role role granted required h =
    rw
      (
        contains-append (or_empty granted) (role_permissions role) (required_code required),
        contains-append (or_empty granted) (role_permissions role)
            (before_colon (required_code required) <> ":*"),
      )
      (ground arith)

-- What a service may do a user may do, and what a user may do an administrator may do.
abbrev pub weaker : Role → Role → Bool
weaker Role.service _ = true
weaker Role.user Role.service = false
weaker Role.user _ = true
weaker Role.admin Role.admin = true
weaker Role.admin _ = false

contains-weaker :
    (r s : Role) (c : String)
    → weaker r s ≡ true
    → contains (role_permissions r) c ≡ true
    → contains (role_permissions s) c ≡ true
contains-weaker r s c w h = ground arith

module _ (hash_key : String → String) (redact_mapping : Fields → Fields) where
  dispatch_allowed :
      (id : Uuid) (now : ℕ) (enabled : Bool) (call_next : CallNext) (r : Request)
      (s : SecurityState)
      → is_exempt r.path ≡ false
      → (allow s.rate_limiter (identifier_of r) now).0 ≡ true
      → dispatch hash_key redact_mapping id now enabled call_next r s
        ≡ admitted hash_key redact_mapping id now enabled call_next r
            (record s { rate_limiter = (allow s.rate_limiter (identifier_of r) now).1 })
  unfolding dispatch
  dispatch_allowed id now enabled call_next r s secured ok = rw (secured, ok, dispatch)

  nonempty-eq-some : (o : Option String) (raw : String) → nonempty o ≡ some raw → o ≡ some raw
  nonempty-eq-some o raw h = ground arith

  -- With security switched on a request outside the exempt paths reaches the application only if
  -- the limiter lets it through and its key is valid; then the application is called with the
  -- key's principal, after the access has been recorded. Any other request is answered with
  -- 429 or 401, whatever the application is.
  pub dispatch_enabled :
      (id : Uuid) (now : ℕ) (call_next : CallNext) (r : Request) (s : SecurityState)
      → is_exempt r.path ≡ false
      → let limited = allow s.rate_limiter (identifier_of r) now in
        let s' : SecurityState = record s { rate_limiter = limited.1 } in
        let result = dispatch hash_key redact_mapping id now true call_next r s in
        ((limited.0 ≡ false) × (result.0 ≡ rejected 429 "Rate limit exceeded"))
        ⊎ ((limited.0 ≡ true) × (result.0 ≡ rejected 401 "Invalid or missing API key"))
        ⊎ ((raw : String) × (p : SecurityPrincipal) × (limited.0 ≡ true)
            × (r.raw_key ≡ some raw)
            × ((validate_api_key hash_key now raw s.store).0 ≡ some p)
            × (result
                ≡ call_next p (
                    audited redact_mapping id now p.actor "api_access" r
                      (record s' { store = (validate_api_key hash_key now raw s.store).1 }))))
  unfolding dispatch admitted
  dispatch_enabled id now call_next r s secured =
      elim (Bool-cases (allow s.rate_limiter (identifier_of r) now).0) [
        | inr over ↦ inl (over, rw (secured, over, dispatch))
        | inl ok ↦
            let e = dispatch_allowed id now true call_next r s secured ok in
            elim (Option-cases (nonempty r.raw_key)) [
              | inl bare ↦ inr (inl (ok, rw e (rw (bare, admitted))))
              | inr (raw, given) ↦
                  elim (Option-cases (validate_api_key hash_key now raw s.store).0) [
                    | inl bad ↦ inr (inl (ok, rw e (rw (given, admitted) (rw (bad, admitted)))))
                    | inr (p, good) ↦ inr (
                        inr (
                          raw,
                          p,
                          ok,
                          nonempty-eq-some r.raw_key raw given,
                          good,
                          e ∙ rw (given, admitted) (rw (good, admitted)),
                        ))
                  ]
            ]
      ]
