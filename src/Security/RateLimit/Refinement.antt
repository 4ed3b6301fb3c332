-- ===== src/Security/RateLimit/Refinement.antt =====
-- The limiter, which forgets old hits, decides as one that remembers every hit.
use mathlib.Core.List.{append-nil}
use ai_employee_os.Common.{
  ℕ, ◌*◌, ◌≤◌, ◌≡◌, refl, sym, ap, ◌∙◌, String, Bool, inl, inr, List, [], ◌∷◌, ◌++◌, ltb, leb,
  if◌then◌else◌, string_eq, length, ◌==◌, select, ◌&&◌, arith, Bool-cases,
}
use ai_employee_os.Common.Dict.{Dict, lookup, insert, lookup-insert}
use ai_employee_os.Security.RateLimit.{RateLimiter, window, hits_of, in_window, recent, allow}

abbrev pub Request : Type 0
Request = String × ℕ

-- The decisions of the limiter on requests in turn.
unfoldable pub decisions : RateLimiter → List Request → List Bool
decisions l [] = []
decisions l ((identifier, now) ∷ rs) =
    let (allowed, l') = allow l identifier now in allowed ∷ decisions l' rs

-- The specification keeps the admitted requests, all of them and for all identifiers.
abbrev pub hits_in : ℕ → List Request → String → ℕ → List ℕ
hits_in width [] identifier now = []
hits_in width ((j, ts) ∷ log) identifier now =
    let rest = hits_in width log identifier now in
    if j == identifier && in_window width now ts then ts ∷ rest else rest

abbrev pub admits : ℕ → ℕ → List Request → Request → Bool
admits limit width log (identifier, now) = ltb (length (hits_in width log identifier now)) limit

unfoldable pub spec_decisions : ℕ → ℕ → List Request → List Request → List Bool
spec_decisions limit width log [] = []
spec_decisions limit width log (r ∷ rs) =
    let allowed = admits limit width log r in
    allowed ∷ spec_decisions limit width (if allowed then log ++ (r ∷ []) else log) rs

-- The clock does not run backwards.
abbrev pub InOrder : ℕ → List Request → Type 0
InOrder start [] = Unit
InOrder start ((_, now) ∷ rs) = (start ≤ now) × InOrder now rs

-- The limiter has every admitted hit that can still count at `start` or later.
abbrev Tracks : RateLimiter → List Request → ℕ → Type 0
Tracks l log start =
    (identifier : String) (now : ℕ)
    → start ≤ now
    → recent l identifier now ≡ hits_in (window l) log identifier now

select-select :
    (width now later : ℕ) (ts : List ℕ)
    → now ≤ later
    → select (in_window width later) (select (in_window width now) ts)
      ≡ select (in_window width later) ts
select-select width now later [] h = refl
select-select width now later (t ∷ ts) h = ground (arith, select-select width now later ts h)

select-append : (p : ℕ → Bool) (xs ys : List ℕ) → select p (xs ++ ys) ≡ select p xs ++ select p ys
select-append p [] ys = refl
select-append p (x ∷ xs) ys = ground (arith, select-append p xs ys)

hits_in-append :
    (width : ℕ) (log : List Request) (r : Request) (identifier : String) (now : ℕ)
    → hits_in width (log ++ (r ∷ [])) identifier now
      ≡ hits_in width log identifier now ++ hits_in width (r ∷ []) identifier now
hits_in-append width [] r identifier now = refl
hits_in-append width (x ∷ log) r identifier now =
    ground (arith, hits_in-append width log r identifier now)

hits_of-insert :
    (hits : Dict String (List ℕ)) (i j : String) (ts : List ℕ)
    → hits_of (insert i ts hits) j ≡ (if j == i then ts else hits_of hits j)
hits_of-insert hits i j ts = ground (arith, lookup-insert j i ts hits)

module _ (width : ℕ) (hits : Dict String (List ℕ)) (i j : String) (now t : ℕ) (h : now ≤ t) where
  -- Dropping hits that are too old now changes nothing later.
  forget-old :
      select
        (in_window width t)
        (hits_of (insert i (select (in_window width now) (hits_of hits i)) hits) j)
      ≡ select (in_window width t) (hits_of hits j)
  forget-old =
      rw (hits_of-insert hits i j _) (ground (arith, select-select width now t (hits_of hits i) h))

  add-new :
      select
        (in_window width t)
        (hits_of (insert i (select (in_window width now) (hits_of hits i) ++ (now ∷ [])) hits) j)
      ≡ select (in_window width t) (hits_of hits j) ++ hits_in width ((i, now) ∷ []) j t
  add-new = rw (hits_of-insert hits i j _) (
      ground (
        arith,
        select-select width now t (hits_of hits i) h,
        select-append (in_window width t) (select (in_window width now) (hits_of hits i))
            (now ∷ []),
        append-nil (select (in_window width t) (hits_of hits j)),
      ))

module _ (l : RateLimiter) (log : List Request) (start : ℕ) (tracks : Tracks l log start)
    (identifier : String) (now : ℕ) (later : start ≤ now) where
  allow-admits : (allow l identifier now).0 ≡ admits l.limit (window l) log (identifier, now)
  unfolding allow
  allow-admits = ground (arith, tracks identifier now later)

  allow-Tracks :
      Tracks
        (allow l identifier now).1
        (if (allow l identifier now).0 then log ++ ((identifier, now) ∷ []) else log)
        now
  unfolding allow
  allow-Tracks j t h = elim (Bool-cases (leb l.limit (length (recent l identifier now)))) [
    | inl full ↦
        rw (full, allow)
          (forget-old (window l) l.hits identifier j now t h ∙ tracks j t (omega arith))
    | inr room ↦
        rw (room, allow)
          (add-new (window l) l.hits identifier j now t h
            ∙ (ap (λ ts. ts ++ hits_in (window l) ((identifier, now) ∷ []) j t)
                  (tracks j t (omega arith))
                ∙ sym (hits_in-append (window l) log (identifier, now) j t)))
  ]

  allow-limit :
      ((allow l identifier now).1.limit ≡ l.limit)
      × ((allow l identifier now).1.window_seconds ≡ l.window_seconds)
  unfolding allow
  allow-limit = ground arith

decisions-eq_spec :
    (rs : List Request) (l : RateLimiter) (log : List Request) (start : ℕ)
    → Tracks l log start
    → InOrder start rs
    → decisions l rs ≡ spec_decisions l.limit (window l) log rs
unfolding decisions spec_decisions
decisions-eq_spec [] l log start tracks order = refl
decisions-eq_spec ((identifier, now) ∷ rs) l log start tracks order =
    let same : (allow l identifier now).0 ≡ admits l.limit (window l) log (identifier, now) =
      allow-admits l log start tracks identifier now order.0 in
    let rest =
      decisions-eq_spec rs (allow l identifier now).1
        (if (allow l identifier now).0 then log ++ ((identifier, now) ∷ []) else log) now
        (allow-Tracks l log start tracks identifier now order.0) order.1 in
    let (lim, win) = allow-limit l log start tracks identifier now order.0 in
    ground (arith, same, rest, lim, win)

-- On requests in the order of time a new limiter decides as the specification does: a request is
-- admitted exactly if fewer than `limit` requests of its identifier were admitted in the window
-- that ends with it.
pub decisions-new :
    (limit window_seconds : ℕ) (rs : List Request)
    → InOrder 0 rs
    → decisions (record { limit = limit; window_seconds = window_seconds; hits = [] }) rs
      ≡ spec_decisions limit (window_seconds * 1_000_000) [] rs
unfolding lookup
decisions-new limit window_seconds rs order =
    decisions-eq_spec rs (record { limit = limit; window_seconds = window_seconds; hits = [] }) [] 0
      (λ identifier now h. refl) order
