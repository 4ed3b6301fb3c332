-- ===== src/Security/RateLimit/Tests.antt =====
-- A limiter of two requests in ten seconds.
use ai_employee_os.Common.{◌≤◌, ◌≡◌, refl, true, false, List, [], ◌∷◌, arith, string_eq}
use ai_employee_os.Common.Dict.{lookup, insert}
use ai_employee_os.Security.RateLimit.{RateLimiter, allow}
use ai_employee_os.Security.RateLimit.Refinement.{Request, decisions, spec_decisions, decisions-new}
use ai_employee_os.Security.RateLimit.Bound.{chosen, in_span, admitted-le-limit}

abbrev requests : List Request
requests =
    ("x", 0) ∷ ("x", 1_000_000) ∷ ("x", 2_000_000) ∷ ("y", 2_000_000) ∷ ("x", 10_000_001) ∷ []

abbrev limiter : RateLimiter
limiter = record { limit = 2; window_seconds = 10; hits = [] }

requests_run : decisions limiter requests ≡ true ∷ true ∷ false ∷ true ∷ true ∷ []
unfolding decisions allow lookup insert string_eq
requests_run = refl

decisions-new_example : decisions limiter requests ≡ spec_decisions 2 10_000_000 [] requests
decisions-new_example = decisions-new 2 10 requests (omega arith)

admitted-le-limit_example :
    in_span 10_000_000 (chosen (decisions limiter requests) requests) "x" 0 ≤ 2
admitted-le-limit_example = admitted-le-limit 2 10 requests "x" 0 (omega arith)
