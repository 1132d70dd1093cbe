-- ===== src/ProcessGraph/Graph/Making.antt =====
-- The invariant under the parts of a fork and of an exec.
use self_healing_kubernetes.Base.{
  ℕ, ◌+◌, ◌-◌, ◌^◌, ◌<◌, ◌≡◌, refl, ◌⊎◌, inl, inr, true, false, Option, none, some, nat_eq, nat_Eq,
  if◌then◌else◌, Bool-cases, Option-cases, lookup,
}
use self_healing_kubernetes.ProcessGraph.Event.{EventEnvelope, uint32_meta}
use self_healing_kubernetes.ProcessGraph.Node.{NodeKey, key_Eq, ProcessNode, blank_node}
use self_healing_kubernetes.ProcessGraph.Graph.{
  ProcessGraph, evict_if_needed, modify, add_node, has_node, add_child, stub_node, ensure_parent,
  ensure_child, sid_of, join_session, track_fork, key_of, parent_of, exec_node, ensure_exec,
  track_exec,
}
use self_healing_kubernetes.ProcessGraph.Graph.Invariant.{
  Fits, Fits-later, Fits-links, Fits-evict_if_needed, Fits-modify, Fits-add_node,
}

Fits-add :
    (max bound : ℕ) (key : NodeKey) (make : ℕ → ProcessNode) (link : ProcessGraph → ProcessGraph)
    (g : ProcessGraph)
    → ((s : ℕ) → ((make s).key ≡ key) × ((make s).seq ≡ s))
    → ((g' : ProcessGraph)
        → ((link g').nodes ≡ g'.nodes)
          × ((link g').max_nodes ≡ g'.max_nodes)
          × ((link g').seq ≡ g'.seq))
    → lookup key g.nodes ≡ none
    → bound + 1 < 2 ^ 64 - 1
    → Fits max 0 bound g
    → Fits max 0 (bound + 1) (evict_if_needed (link (add_node key make g)))
Fits-add max bound key make link g same links fresh h f =
    let added = add_node key make g in
    Fits-evict_if_needed max (bound + 1) (link added) h (
      Fits-links max 1 (bound + 1) added (link added) (links added).0 (links added).1
        (links added).2 (Fits-add_node max bound key make g same fresh h f))

has_node-cases :
    (key : NodeKey) (g : ProcessGraph)
    → ((has_node key g ≡ false) × (lookup key g.nodes ≡ none)) ⊎ (has_node key g ≡ true)
has_node-cases key g = elim (Option-cases (lookup key g.nodes)) [
  | inl fresh ↦ inl (rw (has_node, fresh) refl, fresh)
  | inr (n, found) ↦ inr (rw (has_node, found) refl)
]

-- A node that is made where there is none.
pub Fits-ensure_parent :
    (max bound : ℕ) (key : NodeKey) (env : EventEnvelope) (g : ProcessGraph)
    → bound + 1 < 2 ^ 64 - 1
    → Fits max 0 bound g
    → Fits max 0 (bound + 1) (ensure_parent key env g)
unfolding ensure_parent
Fits-ensure_parent max bound key env g h f = elim (has_node-cases key g) [
  | inr found ↦ rw found (Fits-later max 0 bound g f)
  | inl (absent, fresh) ↦ rw absent (elim (Bool-cases (nat_eq env.ppid 0)) [
    | inl orphan ↦ rw orphan (Fits-later max 0 bound g f)
    | inr known ↦ rw known (
        Fits-add max bound key (stub_node key env) (λ g'. g') g (λ s. (refl, refl))
          (λ g'. (refl, refl, refl)) fresh h f)
  ])
]

pub Fits-ensure_child :
    (max bound : ℕ) (key : NodeKey) (g : ProcessGraph)
    → bound + 1 < 2 ^ 64 - 1
    → Fits max 0 bound g
    → Fits max 0 (bound + 1) (ensure_child key g)
unfolding ensure_child
Fits-ensure_child max bound key g h f = elim (has_node-cases key g) [
  | inr found ↦ rw found (Fits-later max 0 bound g f)
  | inl (absent, fresh) ↦ rw absent (
      Fits-add max bound key (blank_node key) (λ g'. g') g (λ s. (refl, refl))
        (λ g'. (refl, refl, refl)) fresh h f)
]

pub Fits-ensure_exec :
    (max bound : ℕ) (env : EventEnvelope) (g : ProcessGraph)
    → bound + 1 < 2 ^ 64 - 1
    → Fits max 0 bound g
    → Fits max 0 (bound + 1) (ensure_exec env g)
unfolding ensure_exec
Fits-ensure_exec max bound env g h f = elim (has_node-cases (key_of env) g) [
  | inr found ↦ rw found (Fits-later max 0 bound g f)
  | inl (absent, fresh) ↦ rw absent (
      Fits-add max bound (key_of env) (exec_node env) (add_child (parent_of env) (key_of env)) g
        (λ s. (refl, refl)) (λ g'. unfold add_child in (refl, refl, refl)) fresh h f)
]

Fits-join_session :
    (max bound sid : ℕ) (key : NodeKey) (g : ProcessGraph)
    → Fits max 0 bound g
    → Fits max 0 bound (join_session sid key g)
unfolding join_session
Fits-join_session max bound sid key g f =
    Fits-links max 0 bound g (join_session sid key g) refl refl refl f

-- A change under an optional value.
Fits-optional :
    {A : Type 0} (max bound : ℕ) (o : Option A) (g : ProcessGraph) (change : A → ProcessGraph)
    → ((x : A) → Fits max 0 bound (change x))
    → Fits max 0 bound g
    → Fits max 0 bound (elim o [ none ↦ g | some x ↦ change x ])
Fits-optional max bound none g change h f = f
Fits-optional max bound (some x) g change h f = h x

Fits-join_modify :
    (max bound sid : ℕ) (key : NodeKey) (g : ProcessGraph)
    → Fits max 0 bound g
    → Fits max 0 bound (join_session sid key (modify key (λ n. record n { sid = sid }) g))
Fits-join_modify max bound sid key g f =
    Fits-join_session max bound sid key (modify key (λ n. record n { sid = sid }) g)
      (Fits-modify max 0 bound key (λ n. record n { sid = sid }) g (λ n. (refl, refl)) f)

pub Fits-track_fork :
    (max bound : ℕ) (key : NodeKey) (env : EventEnvelope) (g : ProcessGraph)
    → Fits max 0 bound g
    → Fits max 0 bound (track_fork key env g)
unfolding track_fork
Fits-track_fork max bound key env g f =
    let joined : ProcessGraph = elim (sid_of env) [
      | none ↦ g
      | some sid ↦ join_session sid key (modify key (λ n. record n { sid = sid }) g)
    ] in
    let kept : Fits max 0 bound joined =
      Fits-optional max bound (sid_of env) g
        (λ sid. join_session sid key (modify key (λ n. record n { sid = sid }) g))
        (λ sid. Fits-join_modify max bound sid key g f) f in
    Fits-optional max bound (uint32_meta env.metadata "pgid") joined
      (λ pgid. modify key (λ n. record n { pgid = pgid }) joined)
      (λ pgid.
        Fits-modify max 0 bound key (λ n. record n { pgid = pgid }) joined (λ n. (refl, refl)) kept)
      kept

pub Fits-track_exec :
    (max bound : ℕ) (key : NodeKey) (env : EventEnvelope) (g : ProcessGraph)
    → Fits max 0 bound g
    → Fits max 0 bound (track_exec key env g)
unfolding track_exec
Fits-track_exec max bound key env g f =
    Fits-optional max bound (sid_of env) g
      (λ sid. elim (lookup key g.nodes) [
        | none ↦ join_session sid key g
        | some n ↦
            if nat_eq n.sid 0
            then join_session sid key (modify key (λ n. record n { sid = sid }) g)
            else g
      ])
      (λ sid.
        Fits-optional max bound (lookup key g.nodes) (join_session sid key g)
          (λ n.
            if nat_eq n.sid 0
            then join_session sid key (modify key (λ n. record n { sid = sid }) g)
            else g)
          (λ n. elim (Bool-cases (nat_eq n.sid 0)) [
            | inl free ↦ rw free (Fits-join_modify max bound sid key g f)
            | inr taken ↦ rw taken f
          ])
          (Fits-join_session max bound sid key g f))
      f
