-- ===== src/Controller/Reconciler/Escalating.antt =====
-- What the passes do to the escalation ladder.
use self_healing_kubernetes.Base.{suc, String, ◌≡◌, arith, Keyed}
use self_healing_kubernetes.Guardrails.RateLimit.{allow as rate_allow}
use self_healing_kubernetes.Guardrails.Breaker.{allow as breaker_allow}
use self_healing_kubernetes.Controller.Types.{AnomalyEvent}
use self_healing_kubernetes.Controller.Escalation.{Next, next_action}
use self_healing_kubernetes.Controller.Escalation.Ladder.{rung_of, AllOnLadder, next_action-climbs}
use self_healing_kubernetes.Controller.Reconciler.{
  External, Clocks, Verdict, skipped, cooling_down, Reconciler, context, labels_of, dispatch, clear,
  choose, throttle, reconcile,
}

module _ (x : External) where
  open x use {Float}

  -- What a pass that ends in a cooldown did.
  abbrev Wasted : Reconciler x → AnomalyEvent Float → Reconciler x × Verdict → Type 0
  Wasted r a (r', v) =
      v ≡ skipped cooling_down
      → rung_of r'.escalation (context x a) ≡ suc (rung_of r.escalation (context x a))

  clear-kept :
      (r : Reconciler x) (a : AnomalyEvent Float) (next : Next) (labels : Keyed String String)
      (id : String) (t : Clocks)
      → (clear x r a next labels id t).1 ≡ skipped cooling_down
      → (clear x r a next labels id t).0.escalation ≡ r.escalation
  unfolding clear dispatch
  clear-kept r a next labels id t h = ground arith

  choose-Wasted :
      (r : Reconciler x) (a : AnomalyEvent Float) (labels : Keyed String String) (id : String)
      (t : Clocks)
      → AllOnLadder r.escalation
      → Wasted r a (choose x r a labels id t)
  unfolding choose
  choose-Wasted r a labels id t all h =
      let (em, next) = next_action r.escalation (context x a) t.escalation in
      let (_, outcome) = next_action-climbs r.escalation (context x a) t.escalation all in
      ground (arith, outcome, clear-kept (record r { escalation = em }) a next labels id t)

  throttle-Wasted :
      (r : Reconciler x) (a : AnomalyEvent Float) (labels : Keyed String String) (id : String)
      (t : Clocks)
      → AllOnLadder r.escalation
      → Wasted r a (throttle x r a labels id t)
  unfolding throttle
  throttle-Wasted r a labels id t all h =
      let breaker' = (breaker_allow t.breaker r.breaker).1 in
      let limiter' = (rate_allow t.rate_tested t.rate_recorded r.rate_limiter).1 in
      ground (
        arith,
        choose-Wasted (record r { breaker = breaker'; rate_limiter = limiter' }) a labels id t all,
      )

  -- When a pass is refused by the cooldown, and the escalation's entries fit the ladder, the context
  -- of the anomaly is nevertheless one rung higher than before.
  pub cooling_down-climbs :
      (r : Reconciler x) (a : AnomalyEvent Float) (id : String) (t : Clocks)
      → AllOnLadder r.escalation
      → (reconcile x r a id t).1 ≡ skipped cooling_down
      → rung_of (reconcile x r a id t).0.escalation (context x a)
        ≡ suc (rung_of r.escalation (context x a))
  unfolding reconcile
  cooling_down-climbs r a id t all h =
      ground (arith, throttle-Wasted r a (labels_of x r.cluster a) id t all)
