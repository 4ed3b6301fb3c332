-- ===== src/Security/RateLimit/Bound.antt =====
-- How many requests of one identifier the limiter admits in a window of time.
use mathlib.Core.List.{append-nil, append_assoc}
use ai_employee_os.Common.{
  ℕ, ◌+◌, ◌*◌, ◌≤◌, ◌≡◌, String, Bool, true, inl, inr, List, [], ◌∷◌, ◌++◌, leb, if◌then◌else◌,
  string_eq, length, ◌==◌, ◌&&◌, arith, Bool-cases,
}
use ai_employee_os.Security.RateLimit.{RateLimiter}
use ai_employee_os.Security.RateLimit.Refinement.{
  Request, decisions, hits_in, admits, spec_decisions, InOrder, decisions-new,
}

-- The requests that were admitted, in turn.
abbrev pub chosen : List Bool → List Request → List Request
chosen [] rs = []
chosen (b ∷ bs) [] = []
chosen (b ∷ bs) (r ∷ rs) = let rest = chosen bs rs in if b then r ∷ rest else rest

-- The requests of `identifier` from `from` to `from + width`, both included.
abbrev pub in_span : ℕ → List Request → String → (from : ℕ) → ℕ
in_span width [] identifier from = 0
in_span width ((j, ts) ∷ log) identifier from =
    let rest = in_span width log identifier from in
    if j == identifier && (leb from ts && leb ts (from + width)) then rest + 1 else rest

in_span-append :
    (width : ℕ) (xs ys : List Request) (identifier : String) (from : ℕ)
    → in_span width (xs ++ ys) identifier from
      ≡ in_span width xs identifier from + in_span width ys identifier from
in_span-append width [] ys identifier from = omega arith
in_span-append width (x ∷ xs) ys identifier from =
    ground (arith, in_span-append width xs ys identifier from)

in_span-le-hits_in :
    (width : ℕ) (log : List Request) (identifier : String) (from now : ℕ)
    → now ≤ from + width
    → in_span width log identifier from ≤ length (hits_in width log identifier now)
in_span-le-hits_in width [] identifier from now h = omega arith
in_span-le-hits_in width (r ∷ log) identifier from now h =
    ground (arith, in_span-le-hits_in width log identifier from now h)

module _ (limit width : ℕ) where
  abbrev Bounded : List Request → Type 0
  Bounded log = (identifier : String) (from : ℕ) → in_span width log identifier from ≤ limit

  admit-Bounded :
      (log : List Request) (r : Request)
      → admits limit width log r ≡ true
      → Bounded log
      → Bounded (log ++ (r ∷ []))
  admit-Bounded log (i, now) ok b identifier from =
      rw (in_span-append width log ((i, now) ∷ []) identifier from)
        (ground (arith, b identifier from, in_span-le-hits_in width log identifier from now))

  spec-Bounded :
      (rs log : List Request)
      → Bounded log
      → Bounded (log ++ chosen (spec_decisions limit width log rs) rs)
  unfolding spec_decisions
  spec-Bounded [] log b = rw append-nil b
  spec-Bounded (r ∷ rs) log b = elim (Bool-cases (admits limit width log r)) [
    | inl ok ↦
        rw ok (rw append_assoc at (spec-Bounded rs (log ++ (r ∷ [])) (admit-Bounded log r ok b)))
    | inr over ↦ rw over (spec-Bounded rs log b)
  ]

-- In no window of `window_seconds` are more than `limit` requests of one identifier admitted,
-- however the requests come, as long as the clock does not run backwards.
pub admitted-le-limit :
    (limit window_seconds : ℕ) (rs : List Request) (identifier : String) (from : ℕ)
    → InOrder 0 rs
    → let l : RateLimiter = record { limit = limit; window_seconds = window_seconds; hits = [] } in
      in_span (window_seconds * 1_000_000) (chosen (decisions l rs) rs) identifier from ≤ limit
admitted-le-limit limit window_seconds rs identifier from order =
    rw (decisions-new limit window_seconds rs order)
      (spec-Bounded limit (window_seconds * 1_000_000) rs [] (λ _ _. omega arith) identifier from)
