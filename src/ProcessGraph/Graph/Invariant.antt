-- ===== src/ProcessGraph/Graph/Invariant.antt =====
-- The invariant of the graph, kept by every event: the limit on the nodes, their keys and numbers.
use native.Mathlib.Nat.{mod-eq_of_lt}
use self_healing_kubernetes.Base.{
  ℕ, suc, ◌+◌, ◌-◌, ◌^◌, ◌%◌, ◌≤◌, ◌<◌, ◌≡◌, ◌∙◌, inl, inr, none, some, arith, length, leb, nat_Eq,
  Bool-cases, Option-cases, lookup, lookup-insert, lookup-erase, Distinct, Distinct-insert,
  Distinct-erase, length-insert_new, length-insert_old,
}
use self_healing_kubernetes.ProcessGraph.Node.{NodeKey, key_Eq, key_beq_iff, ProcessNode}
use self_healing_kubernetes.ProcessGraph.Graph.{
  ProcessGraph, evict, evict_if_needed, modify, add_node,
}
use self_healing_kubernetes.ProcessGraph.Graph.Eviction.{oldest_of, evict_if_needed_lem}

-- The distinct keys are those of the nodes, at most `slack` nodes are over the limit, and the nodes
-- have different numbers, none above the last one given, which is at most `bound`.
pub record Fits (max slack bound : ℕ) (g : ProcessGraph) : Type 0 where
  pub distinct : Distinct g.nodes
  pub max_eq : g.max_nodes ≡ max
  pub within : length g.nodes ≤ max + slack
  pub last : g.seq ≤ bound
  pub keyed :
      (j : NodeKey) (m : ProcessNode) → lookup j g.nodes ≡ some m → (m.key ≡ j) × (m.seq ≤ g.seq)
  pub unique :
      (i j : NodeKey) (m n : ProcessNode)
      → lookup i g.nodes ≡ some m
      → lookup j g.nodes ≡ some n
      → m.seq ≡ n.seq
      → i ≡ j

pub Fits-later :
    (max slack bound : ℕ) (g : ProcessGraph) → Fits max slack bound g → Fits max slack (bound + 1) g
Fits-later max slack bound g f = record {
  distinct = f.distinct;
  max_eq = f.max_eq;
  within = f.within;
  last = omega (arith, f.last);
  keyed = f.keyed;
  unique = f.unique;
}

-- A change of the children or the sessions.
pub Fits-links :
    (max slack bound : ℕ) (g g' : ProcessGraph)
    → g'.nodes ≡ g.nodes
    → g'.max_nodes ≡ g.max_nodes
    → g'.seq ≡ g.seq
    → Fits max slack bound g
    → Fits max slack bound g'
Fits-links max slack bound g g' e k s f = record {
  distinct = rw e f.distinct;
  max_eq = k ∙ f.max_eq;
  within = rw e f.within;
  last = rw s f.last;
  keyed = rw (e, s) f.keyed;
  unique = rw e f.unique;
}

Fits-evict :
    (max bound : ℕ) (k : NodeKey) (g : ProcessGraph)
    → suc (length (evict k g).nodes) ≡ length g.nodes
    → Fits max 1 bound g
    → Fits max 0 bound (evict k g)
unfolding evict
Fits-evict max bound k g one f = record {
  distinct = Distinct-erase k g.nodes f.distinct;
  max_eq = f.max_eq;
  within = omega (arith, f.within, one);
  last = f.last;
  keyed = λ j m e. ground (arith, lookup-erase k j g.nodes, e, f.keyed j m);
  unique = λ i j m n e h s.
      ground (arith, lookup-erase k i g.nodes, lookup-erase k j g.nodes, e, h, f.unique i j m n);
}

pub Fits-evict_if_needed :
    (max bound : ℕ) (g : ProcessGraph)
    → bound < 2 ^ 64 - 1
    → Fits max 1 bound g
    → Fits max 0 bound (evict_if_needed g)
unfolding evict_if_needed
Fits-evict_if_needed max bound g h f = elim (Bool-cases (leb (length g.nodes) g.max_nodes)) [
  | inl few ↦ rw few (record {
    distinct = f.distinct;
    max_eq = f.max_eq;
    within = ground (arith, f);
    last = f.last;
    keyed = f.keyed;
    unique = f.unique;
  })
  | inr many ↦
      let (old, one, gone, _) =
        evict_if_needed_lem g (oldest_of g.nodes) (oldest_of g.nodes) f.distinct
          (λ j m e. omega (arith, h, f.last, (f.keyed j m e).1)) (ground arith) in
      rw many (Fits-evict max bound (oldest_of g.nodes) g (rw many at one) f)
]

pub Fits-modify :
    (max slack bound : ℕ) (key : NodeKey) (change : ProcessNode → ProcessNode) (g : ProcessGraph)
    → ((n : ProcessNode) → ((change n).key ≡ n.key) × ((change n).seq ≡ n.seq))
    → Fits max slack bound g
    → Fits max slack bound (modify key change g)
unfolding modify
Fits-modify max slack bound key change g same f = elim (Option-cases (lookup key g.nodes)) [
  | inl fresh ↦ rw fresh f
  | inr (n, found) ↦ rw found (record {
    distinct = Distinct-insert key (change n) g.nodes f.distinct;
    max_eq = f.max_eq;
    within = omega (arith, f.within, length-insert_old key (change n) n g.nodes found);
    last = f.last;
    keyed = λ j m e. ground (
      arith,
      lookup-insert key j (change n) g.nodes,
      e,
      same n,
      f.keyed key n found,
      f.keyed j m,
      key_beq_iff key j,
    );
    unique = λ i j m n' e k s. ground (
      arith,
      lookup-insert key i (change n) g.nodes,
      lookup-insert key j (change n) g.nodes,
      e,
      k,
      s,
      same n,
      key_beq_iff key i,
      key_beq_iff key j,
      f.unique i j m n',
      f.unique key j n n' found,
      f.unique i key m n,
    );
  })
]

pub Fits-add_node :
    (max bound : ℕ) (key : NodeKey) (make : ℕ → ProcessNode) (g : ProcessGraph)
    → ((s : ℕ) → ((make s).key ≡ key) × ((make s).seq ≡ s))
    → lookup key g.nodes ≡ none
    → bound + 1 < 2 ^ 64 - 1
    → Fits max 0 bound g
    → Fits max 1 (bound + 1) (add_node key make g)
unfolding add_node
Fits-add_node max bound key make g same fresh h f =
    let exact : (g.seq + 1) % 2 ^ 64 ≡ g.seq + 1 = mod-eq_of_lt (omega (arith, f.last, h)) in
    rw exact (record {
      distinct = Distinct-insert key (make (g.seq + 1)) g.nodes f.distinct;
      max_eq = f.max_eq;
      within = omega (arith, f.within, length-insert_new key (make (g.seq + 1)) g.nodes fresh);
      last = omega (arith, f.last);
      keyed = λ j m e. ground (
        arith,
        lookup-insert key j (make (g.seq + 1)) g.nodes,
        e,
        same (g.seq + 1),
        f.keyed j m,
        key_beq_iff key j,
      );
      unique = λ i j m n e k s. ground (
        arith,
        lookup-insert key i (make (g.seq + 1)) g.nodes,
        lookup-insert key j (make (g.seq + 1)) g.nodes,
        e,
        k,
        s,
        same (g.seq + 1),
        key_beq_iff key i,
        key_beq_iff key j,
        f.keyed i m,
        f.keyed j n,
        f.unique i j m n,
      );
    })
