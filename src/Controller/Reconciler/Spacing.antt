-- ===== src/Controller/Reconciler/Spacing.antt =====
-- The global rate limiter over a whole run of the reconciler.
use self_healing_kubernetes.Base.{
  ◌+◌, ◌≤◌, ◌≡◌, subst, refl, ◌⊎◌, inl, inr, String, Bool, true, false, Option, none, some, List,
  [], ◌∷◌, arith, All, if◌then◌else◌, Keyed, Time, Duration,
}
use self_healing_kubernetes.Guardrails.RateLimit.{GlobalRateLimiter, allow as rate_allow}
use self_healing_kubernetes.Guardrails.Cooldown.{allow as cooldown_allow}
use self_healing_kubernetes.Guardrails.Breaker.{allow as breaker_allow}
use self_healing_kubernetes.Controller.Types.{AnomalyEvent, action_name}
use self_healing_kubernetes.Controller.Escalation.{Next, next_action}
use self_healing_kubernetes.Controller.Actions.{ActionError, execute}
use self_healing_kubernetes.Controller.Reconciler.{
  External, Clocks, Verdict, Reconciler, context, labels_of, target_of, conclude, dispatch, clear,
  choose, throttle, reconcile, cooldown_key,
}
use self_healing_kubernetes.Controller.Reconciler.Gates.{is_dispatched}

-- Each time comes at least the interval less the delay after every time before it.
abbrev pub SpacedWithin : (delay interval : Duration) → List Time → Type 0
SpacedWithin delay interval [] = Unit
SpacedWithin delay interval (t ∷ ts) =
    All (λ u. t + interval ≤ u + delay) ts × SpacedWithin delay interval ts

module _ (x : External) where
  open x use {Float, api, parse_duration}

  conclude-limiter :
      (r : Reconciler x) (a : AnomalyEvent Float) (next : Next) (id : String) (t : Clocks)
      (e : Option ActionError)
      → (conclude x r a next id t e).rate_limiter ≡ r.rate_limiter
  unfolding conclude
  conclude-limiter r a next id t none = refl
  conclude-limiter r a next id t (some e) = refl

  dispatch-limiter :
      (r : Reconciler x) (a : AnomalyEvent Float) (next : Next) (labels : Keyed String String)
      (id : String) (t : Clocks)
      → (dispatch x r a next labels id t).0.rate_limiter ≡ r.rate_limiter
  unfolding dispatch
  dispatch-limiter r a next labels id t =
      let (e, c) =
        execute api r.dispatcher (action_name next.action) r.cluster (target_of x a labels)
          r.dry_run in
      conclude-limiter (record r { cluster = c }) a next id t e

  clear-limiter :
      (r : Reconciler x) (a : AnomalyEvent Float) (next : Next) (labels : Keyed String String)
      (id : String) (t : Clocks)
      → (clear x r a next labels id t).0.rate_limiter ≡ r.rate_limiter
  unfolding clear
  clear-limiter r a next labels id t =
      let cooldowns' =
        (cooldown_allow parse_duration r.cooldowns (cooldown_key x a next) t.cooldown).1 in
      ground (arith, dispatch-limiter (record r { cooldowns = cooldowns' }) a next labels id t)

  choose-limiter :
      (r : Reconciler x) (a : AnomalyEvent Float) (labels : Keyed String String) (id : String)
      (t : Clocks)
      → (choose x r a labels id t).0.rate_limiter ≡ r.rate_limiter
  unfolding choose
  choose-limiter r a labels id t =
      let (em, next) = next_action r.escalation (context x a) t.escalation in
      ground (arith, clear-limiter (record r { escalation = em }) a next labels id t)

  -- A pass without a grant dispatches nothing and leaves the limiter; a grant comes an interval
  -- after the last and is recorded.
  abbrev Limited : Reconciler x → Clocks → Reconciler x × Verdict → Type 0
  Limited r t (r', v) =
      (r'.rate_limiter ≡ r.rate_limiter) × (is_dispatched x v ≡ false)
      ⊎ (r'.rate_limiter ≡ record r.rate_limiter { last_action = t.rate_recorded })
        × (r.rate_limiter.last_action + r.rate_limiter.min_interval ≤ t.rate_tested)

  throttle-Limited :
      (r : Reconciler x) (a : AnomalyEvent Float) (labels : Keyed String String) (id : String)
      (t : Clocks)
      → Limited r t (throttle x r a labels id t)
  unfolding throttle rate_allow
  throttle-Limited r a labels id t =
      let breaker' = (breaker_allow t.breaker r.breaker).1 in
      ground (
        arith,
        choose-limiter
            (record r {
              breaker = breaker';
              rate_limiter = record r.rate_limiter { last_action = t.rate_recorded };
            })
            a labels id t,
      )

  reconcile-Limited :
      (r : Reconciler x) (a : AnomalyEvent Float) (id : String) (t : Clocks)
      → Limited r t (reconcile x r a id t)
  unfolding reconcile
  reconcile-Limited r a id t = ground (arith, throttle-Limited r a (labels_of x r.cluster a) id t)

  abbrev pub Pass : Type 0
  Pass = AnomalyEvent Float × String × Clocks

  -- The times at which the passes that dispatch an action send it, in order.
  unfoldable pub dispatch_times : (sent : Pass → Time) → Reconciler x → List Pass → List Time
  dispatch_times sent r [] = []
  dispatch_times sent r ((a, id, t) ∷ passes) =
      let (r', v) = reconcile x r a id t in
      let rest = dispatch_times sent r' passes in
      if is_dispatched x v then sent (a, id, t) ∷ rest else rest

  -- The limiter records after it tests, and the action is sent after that, within the delay.
  abbrev pub IsPrompt : (delay : Duration) (sent : Pass → Time) → Pass → Type 0
  IsPrompt delay sent (a, id, t) =
      (t.rate_tested ≤ t.rate_recorded)
      × (t.rate_recorded ≤ sent (a, id, t))
      × (sent (a, id, t) ≤ t.rate_recorded + delay)

  All-le :
      (lower upper : Time) (ts : List Time)
      → lower ≤ upper
      → All (λ u. upper ≤ u) ts
      → All (λ u. lower ≤ u) ts
  All-le lower upper [] h all = tt
  All-le lower upper (t ∷ ts) h all = (omega (arith, h, all.0), All-le lower upper ts h all.1)

  -- What is sent within the delay after a record is an interval, less the delay, before what follows.
  All-behind :
      (interval delay recorded at : Time) (ts : List Time)
      → at ≤ recorded + delay
      → All (λ u. recorded + interval ≤ u) ts
      → All (λ u. at + interval ≤ u + delay) ts
  All-behind interval delay recorded at [] h all = tt
  All-behind interval delay recorded at (t ∷ ts) h all =
      (omega (arith, h, all.0), All-behind interval delay recorded at ts h all.1)

  -- The times come an interval after the limiter's last, and an interval less the delay apart.
  abbrev Apart : Duration → GlobalRateLimiter → List Time → Type 0
  Apart delay limiter ts =
      All (λ u. limiter.last_action + limiter.min_interval ≤ u) ts
      × SpacedWithin delay limiter.min_interval ts

  Apart-granted :
      (delay : Duration) (limiter : GlobalRateLimiter) (tested recorded at : Time) (went : Bool)
      (ts : List Time)
      → limiter.last_action + limiter.min_interval ≤ tested
      → (tested ≤ recorded) × (recorded ≤ at) × (at ≤ recorded + delay)
      → Apart delay (record limiter { last_action = recorded }) ts
      → Apart delay limiter (if went then at ∷ ts else ts)
  Apart-granted delay limiter tested recorded at true ts h k (all, spaced) = (
    (
      omega (arith, h, k.0, k.1),
      All-le (limiter.last_action + limiter.min_interval) (recorded + limiter.min_interval) ts
          (omega (arith, h, k.0)) all,
    ),
    (All-behind limiter.min_interval delay recorded at ts k.2 all, spaced),
  )
  Apart-granted delay limiter tested recorded at false ts h k (all, spaced) = (
    All-le (limiter.last_action + limiter.min_interval) (recorded + limiter.min_interval) ts
        (omega (arith, h, k.0)) all,
    spaced,
  )

  -- Over any sequence of passes, whatever the anomalies and the outcomes, if each pass's limiter
  -- records no earlier than it tests, and the pass would send its action no earlier than that
  -- record and at most the delay after it: each action that is dispatched is sent at least the
  -- limiter's interval after the limiter's last time at the start, and at least the interval less
  -- the delay after every action dispatched before it.
  pub dispatches-SpacedWithin :
      (delay : Duration) (sent : Pass → Time) (r : Reconciler x) (passes : List Pass)
      → All (IsPrompt delay sent) passes
      → All
          (λ u. r.rate_limiter.last_action + r.rate_limiter.min_interval ≤ u)
          (dispatch_times sent r passes)
        × SpacedWithin delay r.rate_limiter.min_interval (dispatch_times sent r passes)
  unfolding dispatch_times
  dispatches-SpacedWithin delay sent r [] prompt = (tt, tt)
  dispatches-SpacedWithin delay sent r ((a, id, t) ∷ passes) (first, prompt) =
      let r' = (reconcile x r a id t).0 in
      let rest = dispatches-SpacedWithin delay sent r' passes prompt in
      elim (reconcile-Limited r a id t) [
        | inl (same, still) ↦
            rw still (subst (λ l. Apart delay l (dispatch_times sent r' passes)) same rest)
        | inr (moved, due) ↦
            Apart-granted delay r.rate_limiter t.rate_tested t.rate_recorded (sent (a, id, t))
              (is_dispatched x (reconcile x r a id t).1) (dispatch_times sent r' passes) due first
              (subst (λ l. Apart delay l (dispatch_times sent r' passes)) moved rest)
      ]
