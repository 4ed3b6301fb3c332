-- ===== src/Security/Middleware.antt =====
-- `SecurityMiddleware.dispatch` of backend/app/security/middleware.py. The application behind it,
-- `call_next`, is a parameter.
use ai_employee_os.Common.{
  ℕ, String, ◌<>◌, Bool, true, false, Option, none, some, List, [], ◌∷◌, ◌||◌, any, ◌==◌, string_eq,
  if◌then◌else◌,
}
use text.Mathlib.Text.{starts_with}
use ai_employee_os.Common.Json.{Fields, Uuid, end, field, string}
use ai_employee_os.Security.Models.{Role, SecurityPrincipal}
use ai_employee_os.Security.Provider.{SecurityStore}
use ai_employee_os.Security.RateLimit.{RateLimiter, allow}
use ai_employee_os.Security.Manager.{validate_api_key, record_audit}

pub record Request : Type 0 where
  pub path : String
  pub method : String
  pub trace_id : String
  pub raw_key : Option String
  pub client_host : Option String

pub record SecurityState : Type 0 where
  pub store : SecurityStore
  pub rate_limiter : RateLimiter

pub data Response : Type 0 where
  rejected : (status_code : ℕ) (detail : String) → Response
  answered : String → Response

abbrev pub exempt_prefixes : List String
exempt_prefixes =
    "/health" ∷ "/ready" ∷ "/docs" ∷ "/redoc" ∷ "/openapi.json" ∷ "/api/v1/health" ∷ "/api/v1/ready"
    ∷ []

unfoldable pub is_exempt : String → Bool
is_exempt path = any (λ prefix. path == prefix || starts_with path (prefix <> "/")) exempt_prefixes

abbrev pub anonymous : SecurityPrincipal
anonymous = record { actor = "anonymous"; api_key_id = none; role = Role.user; permissions = [] }

-- `if raw_key:`
abbrev pub nonempty : Option String → Option String
nonempty none = none
nonempty (some raw) = if raw == "" then none else some raw

abbrev or_host : Option String → String → String
or_host none host = host
or_host (some raw) host = raw

-- `raw_key or request.client.host if request.client else "unknown"`
abbrev pub identifier_of : Request → String
identifier_of r = elim r.client_host [
  | none ↦ "unknown"
  | some host ↦ or_host (nonempty r.raw_key) host
]

abbrev pub CallNext : Type 0
CallNext = SecurityPrincipal → SecurityState → Response × SecurityState

-- `record_audit`, as the handler calls it
abbrev pub audited :
    (Fields → Fields)
    → (id : Uuid) (now : ℕ) (actor action : String) → Request
    → SecurityState
    → SecurityState
audited redact_mapping id now actor action r s = record s {
  store =
      record_audit redact_mapping id now actor action r.path r.trace_id
        (some (field "method" (string r.method) end)) s.store;
}

module _ (hash_key : String → String) (redact_mapping : Fields → Fields) where
  -- The key of a request, if it has one.
  authenticate : ℕ → Option String → SecurityState → Option SecurityPrincipal × SecurityState
  authenticate now none s = (none, s)
  authenticate now (some raw) s =
      let (principal, store) = validate_api_key hash_key now raw s.store in
      (principal, record s { store = store })

  serve :
      (id : Uuid) (now : ℕ)
      → Bool
      → CallNext
      → Request
      → Option SecurityPrincipal
      → SecurityState
      → Response × SecurityState
  serve id now enabled call_next r (some principal) s =
      call_next principal (audited redact_mapping id now principal.actor "api_access" r s)
  serve id now true call_next r none s = (
    rejected 401 "Invalid or missing API key",
    audited redact_mapping id now "anonymous" "auth_failed" r s,
  )
  serve id now false call_next r none s =
      call_next anonymous (audited redact_mapping id now "anonymous" "api_access" r s)

  unfoldable pub admitted :
      (id : Uuid) (now : ℕ) → Bool → CallNext → Request → SecurityState → Response × SecurityState
  unfolding authenticate serve
  admitted id now enabled call_next r s =
      let (principal, s') = authenticate now (nonempty r.raw_key) s in
      serve id now enabled call_next r principal s'

  -- `id` is the id of the audit event that the request leaves.
  unfoldable pub dispatch :
      (id : Uuid) (now : ℕ)
      → (enabled : Bool) → CallNext
      → Request
      → SecurityState
      → Response × SecurityState
  dispatch id now enabled call_next r s =
      if is_exempt r.path
      then call_next anonymous s
      else (let (allowed, limiter) = allow s.rate_limiter (identifier_of r) now in
          let s' : SecurityState = record s { rate_limiter = limiter } in
          if allowed then admitted id now enabled call_next r s' else (
            rejected 429 "Rate limit exceeded",
            audited redact_mapping id now "anonymous" "rate_limited" r s',
          ))
