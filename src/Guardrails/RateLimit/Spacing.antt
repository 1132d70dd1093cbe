-- ===== src/Guardrails/RateLimit/Spacing.antt =====
-- Any sequence of calls of the rate limiter keeps its grants apart, and the reported wait is right.
use self_healing_kubernetes.Base.{
  ℕ, zero, suc, ◌+◌, ◌*◌, ◌≤◌, ◌≡◌, ◌↔◌, true, List, [], ◌∷◌, some, arith, if◌then◌else◌, get_elem?,
  All, Time,
}
use self_healing_kubernetes.Guardrails.RateLimit.{GlobalRateLimiter, allow, time_until_next}

-- The times recorded by the calls that were granted, in order. A call is the pair of its readings.
unfoldable pub grants : GlobalRateLimiter → List (Time × Time) → List Time
unfolding allow
grants r [] = []
grants r ((tested, recorded) ∷ calls) =
    let (granted, r') = allow tested recorded r in
    let rest = grants r' calls in if granted then recorded ∷ rest else rest

-- A call records no earlier than it tests.
abbrev pub IsForward : Time × Time → Type 0
IsForward (tested, recorded) = tested ≤ recorded

later_grant :
    (r : GlobalRateLimiter) (calls : List (Time × Time)) (k : ℕ) (u : Time)
    → All IsForward calls
    → get_elem? (grants r calls) k ≡ some u
    → r.last_action + suc k * r.min_interval ≤ u
unfolding grants
later_grant r [] k u h e = absurd (ground arith)
later_grant r ((tested, recorded) ∷ calls) zero u h e =
    ground (arith, later_grant r calls zero u h.1)
later_grant r ((tested, recorded) ∷ calls) (suc k) u h e = ground (
  arith,
  later_grant r calls (suc k) u h.1,
  later_grant (record r { last_action = recorded }) calls k u h.1,
)

-- Whatever the calls and whenever they come, the `d`-th grant after one recorded at `t` is recorded
-- at least `d` whole intervals after `t`. A call's clock may not run back between its two readings.
pub grants_spaced :
    (r : GlobalRateLimiter) (calls : List (Time × Time)) (i j d : ℕ) (t u : Time)
    → All IsForward calls
    → get_elem? (grants r calls) i ≡ some t
    → get_elem? (grants r calls) j ≡ some u
    → j ≡ i + d
    → t + d * r.min_interval ≤ u
unfolding grants
grants_spaced r [] i j d t u h a b e = absurd (ground arith)
grants_spaced r ((tested, recorded) ∷ calls) zero zero d t u h a b e =
    let e' : d ≡ 0 = omega arith in ground (arith, grants_spaced r calls zero zero d t u h.1)
grants_spaced r ((tested, recorded) ∷ calls) (suc i) zero d t u h a b e = absurd (omega arith)
grants_spaced r ((tested, recorded) ∷ calls) zero (suc j) d t u h a b e =
    let e' : d ≡ suc j = omega arith in
    ground (
      arith,
      grants_spaced r calls zero (suc j) d t u h.1,
      later_grant (record r { last_action = recorded }) calls j u h.1,
    )
grants_spaced r ((tested, recorded) ∷ calls) (suc i) (suc j) d t u h a b e = ground (
  arith,
  grants_spaced r calls (suc i) (suc j) d t u h.1,
  grants_spaced (record r { last_action = recorded }) calls i j d t u h.1,
)

-- The reported wait is right: the call made after exactly that wait is granted, and one made any
-- earlier is refused.
allow-time_until_next :
    (now wait recorded : Time) (r : GlobalRateLimiter)
    → ((allow (now + wait) recorded r).0 ≡ true) ↔ (time_until_next now r ≤ wait)
unfolding allow time_until_next
allow-time_until_next now wait recorded r = (λ e. ground arith, λ e. ground arith)
