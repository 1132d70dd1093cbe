-- ===== src/Controller/Reconciler/Gates.antt =====
-- What the answer of a pass says of the gates that it went through.
use self_healing_kubernetes.Base.{
  String, ◌≡◌, ◌↔◌, refl, Bool, true, false, ◌&&◌, arith, ltb, ◌==◌, string_Eq, Keyed,
}
use self_healing_kubernetes.Guardrails.Policy.{
  is_protected_namespace, is_protected_pod, requires_confirmation, cordon_min_pod_count,
}
use self_healing_kubernetes.Guardrails.RateLimit.{allow as rate_allow}
use self_healing_kubernetes.Guardrails.Cooldown.{allow as cooldown_allow}
use self_healing_kubernetes.Guardrails.Breaker.{allow as breaker_allow}
use self_healing_kubernetes.Controller.Types.{AnomalyEvent, cordon_node, action_name, action_Eq}
use self_healing_kubernetes.Controller.Escalation.{Next, next_action, is_manual}
use self_healing_kubernetes.Controller.Reconciler.{
  External, Clocks, Verdict, skipped, dispatched, Reconciler, context, labels_of, dispatch,
  affected, clear, choose, throttle, reconcile,
}

module _ (x : External) where
  open x use {Float, api, parse_duration}

  -- The conditions of the gates 6 to 8 on the chosen action.
  abbrev pub Cleared : Reconciler x → AnomalyEvent Float → Next → Clocks → Type 0
  Cleared r a next t =
      (requires_confirmation r.policy (action_name next.action) ≡ false)
      × ((cooldown_allow parse_duration r.cooldowns
            (record {
              pod = a.affected_pod;
              namespace = a.namespace;
              action = action_name next.action;
            })
            t.cooldown).0
          ≡ true)
      × ((next.action == cordon_node
            && ltb (affected x r.cluster a) (cordon_min_pod_count r.policy))
          ≡ false)

  -- The conditions of all the gates, on the state before the pass.
  abbrev pub Passes : Reconciler x → AnomalyEvent Float → Clocks → Type 0
  Passes r a t =
      (is_protected_namespace r.policy a.namespace ≡ false)
      × (is_protected_pod r.policy (labels_of x r.cluster a) ≡ false)
      × ((breaker_allow t.breaker r.breaker).0 ≡ true)
      × ((rate_allow t.rate_tested t.rate_recorded r.rate_limiter).0 ≡ true)
      × (is_manual r.escalation (context x a) ≡ false)
      × ((next_action r.escalation (context x a) t.escalation).1.failed ≡ false)
      × Cleared r a (next_action r.escalation (context x a) t.escalation).1 t

  -- What a pass that stops at a gate leaves alone.
  abbrev pub Untouched : Reconciler x → Reconciler x → Type 0
  Untouched r r' =
      (r'.cluster ≡ r.cluster)
      × (r'.audit ≡ r.audit)
      × (r'.published ≡ r.published)
      × (r'.watched ≡ r.watched)

  -- Either the pass stopped at a gate, or it dispatched and the gates `P` were passed.
  abbrev Stopped : Type 0 → Reconciler x → Reconciler x × Verdict → Type 0
  Stopped P r (r', skipped s) = Untouched r r' × ¬ P
  Stopped P r (r', dispatched e) = P

  abbrev pub is_dispatched : Verdict → Bool
  is_dispatched (skipped s) = false
  is_dispatched (dispatched e) = true

  Stopped-iff :
      (P : Type 0) (r : Reconciler x) (res : Reconciler x × Verdict)
      → Stopped P r res
      → (is_dispatched res.1 ≡ true) ↔ P
  Stopped-iff P r (r', skipped s) (h, blocked) = (λ e. cc, λ p. absurd (blocked p))
  Stopped-iff P r (r', dispatched e) h = (λ e. h, λ p. refl)

  Stopped-Untouched :
      (P : Type 0) (r : Reconciler x) (res : Reconciler x × Verdict)
      → Stopped P r res
      → is_dispatched res.1 ≡ false
      → Untouched r res.0
  Stopped-Untouched P r (r', skipped s) (h, blocked) e = h
  Stopped-Untouched P r (r', dispatched o) h e = cc

  clear-Stopped :
      (r : Reconciler x) (a : AnomalyEvent Float) (next : Next) (labels : Keyed String String)
      (id : String) (t : Clocks)
      → Stopped (Cleared r a next t) r (clear x r a next labels id t)
  unfolding clear dispatch
  clear-Stopped r a next labels id t = ground arith

  choose-Stopped :
      (r : Reconciler x) (a : AnomalyEvent Float) (labels : Keyed String String) (id : String)
      (t : Clocks)
      → Stopped
          ((is_manual r.escalation (context x a) ≡ false)
            × ((next_action r.escalation (context x a) t.escalation).1.failed ≡ false)
            × Cleared r a (next_action r.escalation (context x a) t.escalation).1 t)
          r
          (choose x r a labels id t)
  unfolding choose
  choose-Stopped r a labels id t =
      let (em, next) = next_action r.escalation (context x a) t.escalation in
      ground (arith, clear-Stopped (record r { escalation = em }) a next labels id t)

  throttle-Stopped :
      (r : Reconciler x) (a : AnomalyEvent Float) (labels : Keyed String String) (id : String)
      (t : Clocks)
      → Stopped
          (((breaker_allow t.breaker r.breaker).0 ≡ true)
            × ((rate_allow t.rate_tested t.rate_recorded r.rate_limiter).0 ≡ true)
            × (is_manual r.escalation (context x a) ≡ false)
            × ((next_action r.escalation (context x a) t.escalation).1.failed ≡ false)
            × Cleared r a (next_action r.escalation (context x a) t.escalation).1 t)
          r
          (throttle x r a labels id t)
  unfolding throttle
  throttle-Stopped r a labels id t =
      let breaker' = (breaker_allow t.breaker r.breaker).1 in
      let limiter' = (rate_allow t.rate_tested t.rate_recorded r.rate_limiter).1 in
      ground (
        arith,
        choose-Stopped (record r { breaker = breaker'; rate_limiter = limiter' }) a labels id t,
      )

  reconcile-Stopped :
      (r : Reconciler x) (a : AnomalyEvent Float) (id : String) (t : Clocks)
      → Stopped (Passes r a t) r (reconcile x r a id t)
  unfolding reconcile
  reconcile-Stopped r a id t = ground (arith, throttle-Stopped r a (labels_of x r.cluster a) id t)

  -- A pass dispatches an action if and only if the namespace and the labels are not protected, the
  -- breaker and the rate limiter allow it, the context is not in manual intervention, the escalation
  -- gives an action, that action needs no confirmation, its cooldown allows it, and it is not a
  -- cordon of a node with too few pods, all on the state before the pass.
  pub dispatches_iff :
      (r : Reconciler x) (a : AnomalyEvent Float) (id : String) (t : Clocks)
      → (is_dispatched (reconcile x r a id t).1 ≡ true) ↔ Passes r a t
  dispatches_iff r a id t =
      Stopped-iff (Passes r a t) r (reconcile x r a id t) (reconcile-Stopped r a id t)

  -- A pass that dispatches no action leaves the cluster, the audit log, the published actions and
  -- the observed actions as they were.
  not_dispatched-Untouched :
      (r : Reconciler x) (a : AnomalyEvent Float) (id : String) (t : Clocks)
      → is_dispatched (reconcile x r a id t).1 ≡ false
      → Untouched r (reconcile x r a id t).0
  not_dispatched-Untouched r a id t h =
      Stopped-Untouched (Passes r a t) r (reconcile x r a id t) (reconcile-Stopped r a id t) h
