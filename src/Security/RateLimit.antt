-- ===== src/Security/RateLimit.antt =====
-- `RateLimiter` of backend/app/security/rate_limit.py. A datetime is a number of microseconds;
-- `ts >= now - window` is tested as `now <= ts + window`.
pub mod Refinement
pub mod Bound
mod Tests
use mathlib.Core.Option.{get_or}
use ai_employee_os.Common.{
  ℕ, ◌+◌, ◌-◌, ◌*◌, String, Bool, true, false, List, [], ◌∷◌, ◌++◌, ltb, leb, if◌then◌else◌, not,
  string_eq, length, select,
}
use ai_employee_os.Common.Dict.{Dict, lookup, insert}

pub record RateLimiter : Type 0 where
  pub limit : ℕ
  pub window_seconds : ℕ
  pub hits : Dict String (List ℕ)

abbrev pub window : RateLimiter → ℕ
window l = l.window_seconds * 1_000_000

-- `self._hits.get(identifier, [])`
abbrev pub hits_of : Dict String (List ℕ) → String → List ℕ
hits_of hits identifier = get_or (lookup identifier hits) []

abbrev pub in_window : ℕ → ℕ → ℕ → Bool
in_window width now ts = leb now (ts + width)

abbrev pub recent : RateLimiter → String → ℕ → List ℕ
recent l identifier now = select (in_window (window l) now) (hits_of l.hits identifier)

unfoldable pub allow : RateLimiter → String → (now : ℕ) → Bool × RateLimiter
allow l identifier now =
    let hits = recent l identifier now in
    if leb l.limit (length hits)
    then (false, record l { hits = insert identifier hits l.hits })
    else (true, record l { hits = insert identifier (hits ++ (now ∷ [])) l.hits })

-- `max(0, self.limit - len(hits))`
unfoldable pub remaining : RateLimiter → String → (now : ℕ) → ℕ
remaining l identifier now = l.limit - length (recent l identifier now)
