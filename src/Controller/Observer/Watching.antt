-- ===== src/Controller/Observer/Watching.antt =====
-- The polling loop ends, and reports a recovery only if a poll saw one.
use self_healing_kubernetes.Base.{
  ℕ, zero, suc, ◌+◌, ◌*◌, ◌≤◌, ◌<◌, ◌≡◌, refl, ◌⊎◌, Bool, true, false, Option, some, arith, ltb,
  ltb→lt, lt→ltb, inl, inr, Bool-cases, Time,
}
use self_healing_kubernetes.Controller.Kubernetes.{Api}
use self_healing_kubernetes.Controller.Types.{ActionEvent}
use self_healing_kubernetes.Controller.Observer.{
  Poll, watch, recovered, milliseconds, observer_poll_interval,
}

module _ (F : Type 0) (api : Api) (action : ActionEvent F) (start deadline : Time)
    (polls : ℕ → Poll F api) where
  -- What the loop saw in the round in which it reported a recovery.
  abbrev pub SawRecovery : Poll F api → Type 0
  SawRecovery poll =
      (recovered F api action poll.cluster ≡ true)
      × (poll.tested < deadline)
      × (poll.cancelled ≡ false)

  -- The loop returned in some round, with a recovery that it saw or for want of one in time.
  abbrev pub Ends : Option (Bool × ℕ) → Type 0
  Ends r =
      (round ms : ℕ) × ((r ≡ some (true, ms)) × SawRecovery (polls round)
        ⊎ (r ≡ some (false, ms))
          × (((polls round).cancelled ≡ true) ⊎ (deadline ≤ (polls round).tested)))

  abbrev Paced : Type 0
  Paced = (k : ℕ) → (polls k).tested + observer_poll_interval ≤ (polls (suc k)).tested

  late :
      (fuel i : ℕ)
      → deadline ≤ (polls i).tested
      → Ends (watch F api (suc fuel) action start deadline polls i)
  unfolding watch
  late fuel i h = (i, milliseconds F api start (polls i).returned, inr (ground arith, inr h))

  -- A round in time either ends the loop or goes on.
  in_time :
      (fuel i : ℕ)
      → (polls i).tested < deadline
      → Ends (watch F api fuel action start deadline polls (suc i))
      → Ends (watch F api (suc fuel) action start deadline polls i)
  unfolding watch
  in_time fuel i h rest =
      let soon = lt→ltb (polls i).tested deadline h in
      let ms = milliseconds F api start (polls i).returned in
      elim (Bool-cases (polls i).cancelled) [
        | inl stop ↦ (i, ms, inr (rw (soon, stop) refl, inl stop))
        | inr on ↦ elim (Bool-cases (recovered F api action (polls i).cluster)) [
          | inl well ↦ (i, ms, inl (rw (soon, on, well) refl, (well, h, on)))
          | inr ill ↦ rw (soon, on, ill) rest
        ]
      ]

  watch_from :
      (n i : ℕ)
      → Paced
      → deadline ≤ (polls i).tested + n * observer_poll_interval
      → Ends (watch F api (suc n) action start deadline polls i)
  watch_from zero i paced near = late 0 i (omega arith)
  watch_from (suc n) i paced near = elim (Bool-cases (ltb (polls i).tested deadline)) [
    | inl soon ↦
        in_time (suc n) i (ltb→lt (polls i).tested deadline soon)
          (watch_from n (suc i) paced (omega (arith, paced i)))
    | inr over ↦ late (suc n) i (ground arith)
  ]

-- If each round of the loop begins at least the poll interval after the one before, one round more
-- than the intervals that fit from the first round to the deadline is fuel enough: the loop returns.
-- It reports a recovery only if the check of a round before the deadline, in which the context was
-- not cancelled, succeeded; and a failure only on a cancelled context or past the deadline.
pub watch-Ends :
    (F : Type 0) (api : Api) (action : ActionEvent F) (start deadline : Time)
    (polls : ℕ → Poll F api) (n : ℕ)
    → ((k : ℕ) → (polls k).tested + observer_poll_interval ≤ (polls (suc k)).tested)
    → deadline ≤ (polls 0).tested + n * observer_poll_interval
    → Ends F api action start deadline polls (watch F api (suc n) action start deadline polls 0)
watch-Ends F api action start deadline polls n paced near =
    watch_from F api action start deadline polls n 0 paced near
