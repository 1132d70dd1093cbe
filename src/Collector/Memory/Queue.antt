-- ===== src/Collector/Memory/Queue.antt =====
-- pkg/collector/memory.go: the reader of out-of-memory kills and the calls that take them, interleaved.
use mathlib.Core.List.{append_assoc, append-nil}
use self_healing_kubernetes.Base.{
  ℕ, ◌≡◌, ap, sym, ◌∙◌, inl, inr, true, false, Option, List, [], ◌∷◌, ◌++◌, arith, length, ltb,
  Time, Bool-cases,
}
use self_healing_kubernetes.Base.Bytes.{Bytes}
use self_healing_kubernetes.Cgroup.Scan.{ContainerInfo}
use self_healing_kubernetes.Collector.Memory.{
  OomEvent, oom_event, oom_event_size, parse_oom_event, receive, read_oom_events,
}

-- A turn of the reader's loop with a record, or a call that takes the queue.
pub data Step : Type 0 where
  receives : (now : Time) (bytes : Bytes) → Step
  takes : Step

module _ (contents : (cgroup_path filename : Bytes) → Option Bytes) {S : Type 0}
    (resolve : ℕ → S → S × Option ContainerInfo) where
  -- What the calls return, one after the other, and what is left in the queue.
  unfoldable pub run : List Step → S × List OomEvent → List OomEvent × List OomEvent
  run [] (s, queue) = ([], queue)
  run (receives now bytes ∷ steps) (s, queue) =
      run steps (receive contents resolve now bytes (s, queue))
  run (takes ∷ steps) (s, queue) =
      let took = read_oom_events queue in
      let rest = run steps (s, took.1) in (took.0 ++ rest.0, rest.1)

  -- The events of the records that are long enough.
  unfoldable pub events_of : List Step → S → List OomEvent
  events_of [] s = []
  events_of (takes ∷ steps) s = events_of steps s
  events_of (receives now bytes ∷ steps) s =
      let answer = resolve (parse_oom_event bytes).cgroup_id s in
      elim (ltb (length bytes) oom_event_size) [
        | true ↦ events_of steps s
        | false ↦ oom_event contents now (parse_oom_event bytes) answer.1 ∷ events_of steps answer.0
      ]

  receive-short :
      (now : Time) (bytes : Bytes) (s : S) (queue : List OomEvent)
      → ltb (length bytes) oom_event_size ≡ true
      → receive contents resolve now bytes (s, queue) ≡ (s, queue)
  unfolding receive
  receive-short now bytes s queue h = ground (arith, h)

  receive-whole :
      (now : Time) (bytes : Bytes) (s : S) (queue : List OomEvent)
      → ltb (length bytes) oom_event_size ≡ false
      → receive contents resolve now bytes (s, queue) ≡ (
        (resolve (parse_oom_event bytes).cgroup_id s).0,
        queue
            ++ oom_event contents now
                (parse_oom_event bytes)
                (resolve (parse_oom_event bytes).cgroup_id s).1
              ∷ [],
      )
  unfolding receive
  receive-whole now bytes s queue h = ground (arith, h)

  events_of-short :
      (now : Time) (bytes : Bytes) (steps : List Step) (s : S)
      → ltb (length bytes) oom_event_size ≡ true
      → events_of (receives now bytes ∷ steps) s ≡ events_of steps s
  unfolding events_of
  events_of-short now bytes steps s h = ground (arith, h)

  events_of-whole :
      (now : Time) (bytes : Bytes) (steps : List Step) (s : S)
      → ltb (length bytes) oom_event_size ≡ false
      → events_of (receives now bytes ∷ steps) s
        ≡ oom_event contents now
            (parse_oom_event bytes)
            (resolve (parse_oom_event bytes).cgroup_id s).1
          ∷ events_of steps (resolve (parse_oom_event bytes).cgroup_id s).0
  unfolding events_of
  events_of-whole now bytes steps s h = ground (arith, h)

  run-from :
      (steps : List Step) (s : S) (queue : List OomEvent)
      → (run steps (s, queue)).0 ++ (run steps (s, queue)).1 ≡ queue ++ events_of steps s
  unfolding run events_of read_oom_events
  run-from [] s queue = sym (append-nil queue)
  run-from (takes ∷ steps) s queue =
      append_assoc queue (run steps (s, [])).0 (run steps (s, [])).1
      ∙ ap (λ t. queue ++ t) (run-from steps s [])
  run-from (receives now bytes ∷ steps) s queue =
      let raw = parse_oom_event bytes in
      let answer = resolve raw.cgroup_id s in
      let e = oom_event contents now raw answer.1 in
      elim (Bool-cases (ltb (length bytes) oom_event_size)) [
        | inl cut ↦
            ap results (receive-short now bytes s queue cut)
            ∙ run-from steps s queue
            ∙ ap (λ t. queue ++ t) (sym (events_of-short now bytes steps s cut))
        | inr long ↦
            ap results (receive-whole now bytes s queue long)
            ∙ run-from steps answer.0 (queue ++ e ∷ [])
            ∙ append_assoc queue (e ∷ []) (events_of steps answer.0)
            ∙ ap (λ t. queue ++ t) (sym (events_of-whole now bytes steps s long))
      ]
    where
      results : S × List OomEvent → List OomEvent
      results q = (run steps q).0 ++ (run steps q).1

  -- Whatever the order in which records arrive and the queue is taken: what the calls return, in order,
  -- and then what is left in the queue, is one event for each record that is long enough, in the order
  -- of arrival; no kill is lost or returned two times.
  pub run-once :
      (steps : List Step) (s : S)
      → (run steps (s, [])).0 ++ (run steps (s, [])).1 ≡ events_of steps s
  run-once steps s = run-from steps s []
