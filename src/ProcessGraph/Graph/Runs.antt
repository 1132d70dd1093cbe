-- ===== src/ProcessGraph/Graph/Runs.antt =====
-- Runs of the graph: every sequence of events keeps the invariant.
use self_healing_kubernetes.Base.{
  ℕ, ◌+◌, ◌*◌, ◌-◌, ◌^◌, ◌<◌, refl, false, List, [], ◌∷◌, arith, length, nat_eq, nat_Eq,
  if◌then◌else◌, subst, Distinct, lookup-nil-ne,
}
use self_healing_kubernetes.ProcessGraph.Event.{EventEnvelope}
use self_healing_kubernetes.ProcessGraph.Node.{key_Eq, push_event, default_max_nodes}
use self_healing_kubernetes.ProcessGraph.Graph.{
  ProcessGraph, new_graph, modify, add_child, forked, ensure_parent, ensure_child, key_of,
  parent_of, add_fork, ensure_exec, execed, add_exec, mark_exit, correlate_event,
}
use self_healing_kubernetes.ProcessGraph.Graph.Invariant.{Fits, Fits-later, Fits-links, Fits-modify}
use self_healing_kubernetes.ProcessGraph.Graph.Making.{
  Fits-ensure_parent, Fits-ensure_child, Fits-ensure_exec, Fits-track_fork, Fits-track_exec,
}

pub data GraphEvent : Type 0 where
  forks execs : EventEnvelope → GraphEvent
  exits : (cgroup_id pid exit_code : ℕ) → GraphEvent
  correlates : (cgroup_id pid : ℕ) → EventEnvelope → GraphEvent

unfoldable pub apply : GraphEvent → ProcessGraph → ProcessGraph
apply (forks env) g = add_fork env g
apply (execs env) g = add_exec env g
apply (exits cgroup_id pid exit_code) g = mark_exit cgroup_id pid exit_code g
apply (correlates cgroup_id pid ev) g = correlate_event cgroup_id pid ev g

unfoldable pub run : List GraphEvent → ProcessGraph → ProcessGraph
run [] g = g
run (e ∷ events) g = run events (apply e g)

Fits-add_fork :
    (max bound : ℕ) (env : EventEnvelope) (g : ProcessGraph)
    → bound + 1 + 1 < 2 ^ 64 - 1
    → Fits max 0 bound g
    → Fits max 0 (bound + 1 + 1) (add_fork env g)
unfolding add_fork
Fits-add_fork max bound env g h f =
    let parented = ensure_parent (parent_of env) env g in
    let ready = ensure_child (key_of env) parented in
    let written = modify (key_of env) (forked env) ready in
    let linked = add_child (parent_of env) (key_of env) written in
    Fits-track_fork max (bound + 1 + 1) (key_of env) env linked (
      Fits-links max 0 (bound + 1 + 1) written linked (unfold add_child in refl)
        (unfold add_child in refl) (unfold add_child in refl)
        (Fits-modify max 0 (bound + 1 + 1) (key_of env) (forked env) ready (λ n. (refl, refl))
          (Fits-ensure_child max (bound + 1) (key_of env) parented h
            (Fits-ensure_parent max bound (parent_of env) env g (omega (arith, h)) f))))

Fits-add_exec :
    (max bound : ℕ) (env : EventEnvelope) (g : ProcessGraph)
    → bound + 1 < 2 ^ 64 - 1
    → Fits max 0 bound g
    → Fits max 0 (bound + 1) (add_exec env g)
unfolding add_exec
Fits-add_exec max bound env g h f =
    let ready = ensure_exec env g in
    Fits-track_exec max (bound + 1) (key_of env) env (modify (key_of env) (execed env) ready) (
      Fits-modify max 0 (bound + 1) (key_of env) (execed env) ready (λ n. (refl, refl))
        (Fits-ensure_exec max bound env g h f))

Fits-apply :
    (max bound : ℕ) (e : GraphEvent) (g : ProcessGraph)
    → bound + 1 + 1 < 2 ^ 64 - 1
    → Fits max 0 bound g
    → Fits max 0 (bound + 1 + 1) (apply e g)
unfolding apply mark_exit correlate_event
Fits-apply max bound (forks env) g h f = Fits-add_fork max bound env g h f
Fits-apply max bound (execs env) g h f =
    Fits-later max 0 (bound + 1) (add_exec env g)
      (Fits-add_exec max bound env g (omega (arith, h)) f)
Fits-apply max bound (exits cgroup_id pid exit_code) g h f =
    Fits-later max 0 (bound + 1) (mark_exit cgroup_id pid exit_code g) (
      Fits-later max 0 bound (mark_exit cgroup_id pid exit_code g) (
        Fits-modify max 0 bound (record { cgroup_id = cgroup_id; pid = pid })
          (λ n. record n { is_alive = false; exit_code = exit_code }) g (λ n. (refl, refl)) f))
Fits-apply max bound (correlates cgroup_id pid ev) g h f =
    Fits-later max 0 (bound + 1) (correlate_event cgroup_id pid ev g) (
      Fits-later max 0 bound (correlate_event cgroup_id pid ev g) (
        Fits-modify max 0 bound (record { cgroup_id = cgroup_id; pid = pid }) (push_event ev) g
          (λ n. unfold push_event in (refl, refl)) f))

Fits-run :
    (max bound : ℕ) (events : List GraphEvent) (g : ProcessGraph)
    → bound + 2 * length events < 2 ^ 64 - 1
    → Fits max 0 bound g
    → Fits max 0 (bound + 2 * length events) (run events g)
unfolding run
Fits-run max bound [] g h f = subst (λ b. Fits max 0 b g) (omega arith) f
Fits-run max bound (e ∷ events) g h f =
    subst (λ b. Fits max 0 b (run events (apply e g))) (omega arith)
      (Fits-run max (bound + 1 + 1) events (apply e g) (omega (arith, h))
        (Fits-apply max bound e g (omega (arith, h)) f))

-- After any sequence of events on a new graph that is too short to wrap the sequence number, the
-- graph has at most as many nodes as its limit, no key twice, every node under its own key, and no
-- two nodes with one sequence number; the limit is the one given, or the default for 0.
pub run-Fits :
    (max_nodes : ℕ) (events : List GraphEvent)
    → 2 * length events < 2 ^ 64 - 1
    → Fits
        (if nat_eq max_nodes 0 then default_max_nodes else max_nodes)
        0
        (2 * length events)
        (run events (new_graph max_nodes))
run-Fits max_nodes events h =
    subst
      (λ b.
        Fits (if nat_eq max_nodes 0 then default_max_nodes else max_nodes) 0 b
          (run events (new_graph max_nodes)))
      (omega arith)
      (Fits-run (if nat_eq max_nodes 0 then default_max_nodes else max_nodes) 0 events
        (new_graph max_nodes) (omega (arith, h))
        (unfold new_graph in
          record {
            distinct = unfold Distinct in tt;
            max_eq = refl;
            within = omega arith;
            last = omega arith;
            keyed = λ j m e. absurd (lookup-nil-ne j m e);
            unique = λ i j m n e k s. absurd (lookup-nil-ne i m e);
          }))
