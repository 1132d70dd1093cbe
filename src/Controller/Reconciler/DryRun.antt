-- ===== src/Controller/Reconciler/DryRun.antt =====
-- A reconciler in a dry run changes nothing outside its own books.
use self_healing_kubernetes.Base.{
  String, ◌≡◌, refl, ◌∙◌, List, [], ◌∷◌, true, Option, none, some, arith, Keyed,
}
use self_healing_kubernetes.Controller.Types.{AnomalyEvent, action_name}
use self_healing_kubernetes.Controller.Escalation.{Next, next_action}
use self_healing_kubernetes.Guardrails.RateLimit.{allow as rate_allow}
use self_healing_kubernetes.Guardrails.Cooldown.{allow as cooldown_allow}
use self_healing_kubernetes.Guardrails.Breaker.{allow as breaker_allow}
use self_healing_kubernetes.Controller.Actions.{ActionError, execute}
use self_healing_kubernetes.Controller.Actions.DryRun.{execute_dry_run}
use self_healing_kubernetes.Controller.Reconciler.{
  External, Clocks, Reconciler, context, labels_of, target_of, conclude, dispatch, clear, choose,
  throttle, reconcile, cooldown_key, Message, handle_all, handle_anomaly,
}

module _ (x : External) where
  open x use {Float, api, parse_duration}

  abbrev Quiet : Reconciler x → Reconciler x → Type 0
  Quiet r r' = (r'.cluster ≡ r.cluster) × (r'.watched ≡ r.watched) × (r'.dry_run ≡ r.dry_run)

  conclude-Quiet :
      (r : Reconciler x) (a : AnomalyEvent Float) (next : Next) (id : String) (t : Clocks)
      (e : Option ActionError)
      → r.dry_run ≡ true
      → Quiet r (conclude x r a next id t e)
  unfolding conclude
  conclude-Quiet r a next id t none h = ground arith
  conclude-Quiet r a next id t (some e) h = (refl, refl, refl)

  dispatch-Quiet :
      (r : Reconciler x) (a : AnomalyEvent Float) (next : Next) (labels : Keyed String String)
      (id : String) (t : Clocks)
      → r.dry_run ≡ true
      → Quiet r (dispatch x r a next labels id t).0
  unfolding dispatch
  dispatch-Quiet r a next labels id t h =
      let (e, c) =
        execute api r.dispatcher (action_name next.action) r.cluster (target_of x a labels)
          r.dry_run in
      ground (
        arith,
        execute_dry_run api r.dispatcher (action_name next.action) r.cluster (target_of x a labels),
        conclude-Quiet (record r { cluster = c }) a next id t e h,
      )

  clear-Quiet :
      (r : Reconciler x) (a : AnomalyEvent Float) (next : Next) (labels : Keyed String String)
      (id : String) (t : Clocks)
      → r.dry_run ≡ true
      → Quiet r (clear x r a next labels id t).0
  unfolding clear
  clear-Quiet r a next labels id t h =
      let cooldowns' =
        (cooldown_allow parse_duration r.cooldowns (cooldown_key x a next) t.cooldown).1 in
      ground (arith, dispatch-Quiet (record r { cooldowns = cooldowns' }) a next labels id t h)

  choose-Quiet :
      (r : Reconciler x) (a : AnomalyEvent Float) (labels : Keyed String String) (id : String)
      (t : Clocks)
      → r.dry_run ≡ true
      → Quiet r (choose x r a labels id t).0
  unfolding choose
  choose-Quiet r a labels id t h =
      let (em, next) = next_action r.escalation (context x a) t.escalation in
      ground (arith, clear-Quiet (record r { escalation = em }) a next labels id t h)

  throttle-Quiet :
      (r : Reconciler x) (a : AnomalyEvent Float) (labels : Keyed String String) (id : String)
      (t : Clocks)
      → r.dry_run ≡ true
      → Quiet r (throttle x r a labels id t).0
  unfolding throttle
  throttle-Quiet r a labels id t h =
      let breaker' = (breaker_allow t.breaker r.breaker).1 in
      let limiter' = (rate_allow t.rate_tested t.rate_recorded r.rate_limiter).1 in
      ground (
        arith,
        choose-Quiet (record r { breaker = breaker'; rate_limiter = limiter' }) a labels id t h,
      )

  reconcile-Quiet :
      (r : Reconciler x) (a : AnomalyEvent Float) (id : String) (t : Clocks)
      → r.dry_run ≡ true
      → Quiet r (reconcile x r a id t).0
  unfolding reconcile
  reconcile-Quiet r a id t h = ground (arith, throttle-Quiet r a (labels_of x r.cluster a) id t h)

  -- A reconciler in a dry run that takes any sequence of messages, each decoded or not, never
  -- changes the cluster, sets no observer on an action and stays in the dry run.
  pub dry_run_quiet :
      (r : Reconciler x) (messages : List (Message x))
      → r.dry_run ≡ true
      → ((handle_all x r messages).cluster ≡ r.cluster)
        × ((handle_all x r messages).watched ≡ r.watched)
        × ((handle_all x r messages).dry_run ≡ true)
  unfolding handle_all handle_anomaly
  dry_run_quiet r [] h = (refl, refl, h)
  dry_run_quiet r ((none, id, t) ∷ rest) h = dry_run_quiet r rest h
  dry_run_quiet r ((some a, id, t) ∷ rest) h =
      let (same, watched, kept) = reconcile-Quiet r a id t h in
      let (same', watched', kept') = dry_run_quiet (reconcile x r a id t).0 rest (kept ∙ h) in
      (same' ∙ same, watched' ∙ watched, kept')
