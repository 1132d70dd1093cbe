-- ===== src/ProcessGraph/Node/Correlated.antt =====
-- The ring of correlated events of a node refines the list of all its events, cut to the newest.
use mathlib.Core.List.{append-nil, append_assoc}
use self_healing_kubernetes.Base.{
  ℕ, ◌+◌, ◌-◌, ◌%◌, ◌≡◌, refl, ap, Option, none, some, List, [], ◌∷◌, ◌++◌, arith, length, drop,
  drop_all, ltb, nat_eq, Bool-cases, subst, inl, inr, map,
}
use self_healing_kubernetes.Base.Ring.{
  mod-eq-wrapped, Follows, Follows-push, Follows-empty, read_wrapped, read_wrapped-Follows,
  take-Follows,
}
use self_healing_kubernetes.ProcessGraph.Event.{EventEnvelope}
use self_healing_kubernetes.ProcessGraph.Node.{
  NodeKey, ProcessNode, blank_node, event_ring, event_ring_cap, push_event,
}

abbrev Holds : ProcessNode → List (Option EventEnvelope) → Type 0
Holds n log = Follows n.events event_ring_cap n.ev_head n.ev_count log

-- The events in order.
abbrev pub push_all : List EventEnvelope → ProcessNode → ProcessNode
push_all [] n = n
push_all (ev ∷ evs) n = push_all evs (push_event ev n)

push_event-Holds :
    (ev : EventEnvelope) (n : ProcessNode) (log : List (Option EventEnvelope))
    → Holds n log
    → Holds (push_event ev n) (log ++ some ev ∷ [])
unfolding push_event
push_event-Holds ev n log f =
    Follows-push n.events event_ring_cap n.ev_head n.ev_count (push_event ev n).ev_count log
      (some ev) f refl

push_all-Holds :
    (evs : List EventEnvelope) (n : ProcessNode) (log : List (Option EventEnvelope))
    → Holds n log
    → Holds (push_all evs n) (log ++ map some evs)
push_all-Holds [] n log f = rw (append-nil log) f
push_all-Holds (ev ∷ evs) n log f =
    rw (append_assoc log (some ev ∷ []) (map some evs)) at
      (push_all-Holds evs (push_event ev n) (log ++ some ev ∷ []) (push_event-Holds ev n log f))

event_ring-Holds :
    (n : ProcessNode) (log : List (Option EventEnvelope))
    → Holds n log
    → event_ring n ≡ some (drop (length log - event_ring_cap) log)
unfolding event_ring
event_ring-Holds n log f = elim (Bool-cases (nat_eq n.ev_count 0)) [
  | inl empty ↦ rw (empty, drop_all log (length log - event_ring_cap) (ground (arith, f)))
  | inr more ↦ elim (Bool-cases (ltb n.ev_count event_ring_cap)) [
    | inl room ↦
        rw
          (
            more,
            room,
            take-Follows n.events event_ring_cap n.ev_head n.ev_count log f (ground (arith, room)),
          )
          (ap (λ k. some (drop k log)) {x = 0} {y = length log - event_ring_cap}
            (ground (arith, f)))
    | inr full ↦
        rw (more, full)
          (subst
            (λ start.
              read_wrapped n.events event_ring_cap start event_ring_cap 0
              ≡ some (drop (length log - event_ring_cap) log))
            (ground (
              arith,
              f,
              mod-eq-wrapped (n.ev_head + event_ring_cap - event_ring_cap) event_ring_cap,
            ))
            (subst
              (λ k.
                read_wrapped n.events event_ring_cap
                  ((n.ev_head + event_ring_cap - k) % event_ring_cap) k 0
                ≡ some (drop (length log - event_ring_cap) log))
              (ground (arith, f, full))
              (read_wrapped-Follows n.events event_ring_cap n.ev_head n.ev_count log f)))
  ]
]

-- The ring of a new node that has got a list of events reads as the last 32 of them, oldest
-- first, and never runs out of range.
pub event_ring-push_all :
    (key : NodeKey) (seq : ℕ) (evs : List EventEnvelope)
    → event_ring (push_all evs (blank_node key seq))
      ≡ some (drop (length (map some evs) - event_ring_cap) (map some evs))
event_ring-push_all key seq evs =
    event_ring-Holds (push_all evs (blank_node key seq)) (map some evs)
      (push_all-Holds evs (blank_node key seq) [] (Follows-empty event_ring_cap none (omega arith)))
