-- ===== src/ProcessGraph/Reads/Ancestry.antt =====
-- The ancestry of a process is a line of parents without a repetition, at most as long as the depth.
use self_healing_kubernetes.Base.{
  ℕ, zero, suc, ◌≤◌, ◌≡◌, refl, ◌⊎◌, inl, inr, Bool, true, false, ◌||◌, none, some, List, [], ◌∷◌,
  arith, length, any, leb, nat_eq, nat_Eq, ◌==◌, if◌then◌else◌, Bool-cases, Option-cases, Keyed,
  lookup, reverse, All,
}
use self_healing_kubernetes.ProcessGraph.Node.{
  NodeKey, key_Eq, key_beq_iff, ProcessNode, max_ancestors,
}
use self_healing_kubernetes.ProcessGraph.Graph.{ProcessGraph}
use self_healing_kubernetes.ProcessGraph.Reads.{is_top, climb, ancestors}

-- The key of the parent, which is in the same cgroup.
abbrev pub above : NodeKey → ProcessNode → NodeKey
above key n = record { cgroup_id = key.cgroup_id; pid = n.ppid }

abbrev pub is_end : NodeKey → ProcessNode → Bool
is_end key n = is_top n.ppid || nat_eq n.ppid key.pid

-- The keys of a line of nodes that starts at a key.
abbrev pub line_keys : NodeKey → List ProcessNode → List NodeKey
line_keys key [] = []
line_keys key (n ∷ rest) = key ∷ line_keys (above key n) rest

-- Each node is the one of its key, and the next one is its parent; none is above an end.
abbrev pub IsLine : Keyed NodeKey ProcessNode → NodeKey → List ProcessNode → Type 0
IsLine nodes key [] = Unit
IsLine nodes key (n ∷ rest) =
    (lookup key nodes ≡ some n)
    × ((rest ≡ []) ⊎ (is_end key n ≡ false))
    × IsLine nodes (above key n) rest

abbrev pub is_seen : NodeKey → List NodeKey → Bool
is_seen key visited = any (λ seen. seen == key) visited

abbrev pub NoRepeat : List NodeKey → Type 0
NoRepeat [] = Unit
NoRepeat (k ∷ ks) = (is_seen k ks ≡ false) × NoRepeat ks

-- The line stops at an end, at a process that is not known, or at a key that came before.
abbrev pub IsWhole :
    Keyed NodeKey ProcessNode → (visited : List NodeKey) → NodeKey → List ProcessNode → Type 0
IsWhole nodes visited key [] = (lookup key nodes ≡ none) ⊎ (is_seen key visited ≡ true)
IsWhole nodes visited key (n ∷ rest) =
    (rest ≡ []) × (is_end key n ≡ true) ⊎ IsWhole nodes (key ∷ visited) (above key n) rest

module _ (nodes : Keyed NodeKey ProcessNode) where
  climb-unknown :
      (depth : ℕ) (visited : List NodeKey) (key : NodeKey)
      → lookup key nodes ≡ none
      → climb nodes (suc depth) visited key ≡ []
  unfolding climb
  climb-unknown depth visited key h = ground (arith, h)

  -- One step up, where the node is known.
  climb-known :
      (depth : ℕ) (visited : List NodeKey) (key : NodeKey) (n : ProcessNode)
      → lookup key nodes ≡ some n
      → climb nodes (suc depth) visited key ≡ (
          if is_seen key visited
          then []
          else (n ∷ (if is_end key n then [] else climb nodes depth (key ∷ visited) (above key n))))
  unfolding climb
  climb-known depth visited key n found = ground (arith, found)

  record Climbed (depth : ℕ) (visited : List NodeKey) (key : NodeKey) (chain : List ProcessNode)
      : Type 0 where
    line : IsLine nodes key chain
    fresh : All (λ k. is_seen k visited ≡ false) (line_keys key chain)
    no_repeat : NoRepeat (line_keys key chain)
    within : length chain ≤ depth
    whole : (depth ≤ length chain) ⊎ IsWhole nodes visited key chain

  -- What is new behind one more visited key is new, and is not that key.
  All-seen :
      (key : NodeKey) (visited ks : List NodeKey)
      → All (λ k. is_seen k (key ∷ visited) ≡ false) ks
      → All (λ k. is_seen k visited ≡ false) ks × (is_seen key ks ≡ false)
  All-seen key visited [] h = (tt, refl)
  All-seen key visited (k ∷ ks) h =
      let (rest, new) = All-seen key visited ks h.1 in
      ((ground (arith, h), rest), ground (arith, h, new, key_beq_iff key k, key_beq_iff k key))

  climb-Climbed :
      (depth : ℕ) (visited : List NodeKey) (key : NodeKey)
      → Climbed depth visited key (climb nodes depth visited key)
  unfolding climb
  climb-Climbed zero visited key = record {
    line = tt;
    fresh = tt;
    no_repeat = tt;
    within = omega arith;
    whole = inl (omega arith);
  }
  climb-Climbed (suc depth) visited key = elim (Option-cases (lookup key nodes)) [
    | inl absent ↦ rw (climb-unknown depth visited key absent) (record {
      line = tt;
      fresh = tt;
      no_repeat = tt;
      within = omega arith;
      whole = inr (inl absent);
    })
    | inr (n, found) ↦ elim (Bool-cases (is_seen key visited)) [
      | inl seen ↦
          rw (climb-known depth visited key n found, seen)
            (record {
              line = tt;
              fresh = tt;
              no_repeat = tt;
              within = omega arith;
              whole = inr (inr seen);
            })
      | inr new ↦ elim (Bool-cases (is_end key n)) [
        | inl top ↦
            rw (climb-known depth visited key n found, new, top)
              (record {
                line = (found, inl refl, tt);
                fresh = (new, tt);
                no_repeat = (refl, tt);
                within = omega arith;
                whole = inr (inl (refl, top));
              })
        | inr more ↦
            let c = climb-Climbed depth (key ∷ visited) (above key n) in
            let (rest, apart) =
              All-seen key visited
                (line_keys (above key n) (climb nodes depth (key ∷ visited) (above key n)))
                c.fresh in
            rw (climb-known depth visited key n found, new, more)
              (record {
                line = (found, inr more, c.line);
                fresh = (new, rest);
                no_repeat = (apart, c.no_repeat);
                within = omega (arith, c.within);
                whole = elim c.whole [
                  | inl cut ↦ inl (omega (arith, cut))
                  | inr whole ↦ inr (inr whole)
                ];
              })
      ]
    ]
  ]

-- `Ancestors` answers, root first, a line of parents from the process up inside its cgroup, each the
-- graph's node of its key: no key repeats, it is at most as long as the depth, and nothing is above a
-- process whose parent is 0, 1 or itself. The flag is set exactly when the line has the depth's
-- length, whether or not anything was cut off there. A line that is not flagged is whole: it stops at
-- such a process, at one that the graph does not know, or before a key that it has visited.
pub ancestors_lem :
    (g : ProcessGraph) (cgroup_id pid max_depth : ℕ)
    → let key : NodeKey = record { cgroup_id = cgroup_id; pid = pid } in
      let depth = if nat_eq max_depth 0 then max_ancestors else max_depth in
      (chain : List ProcessNode) × (ancestors g cgroup_id pid max_depth
        ≡ (reverse chain, leb depth (length chain)))
      × IsLine g.nodes key chain
      × NoRepeat (line_keys key chain)
      × (length chain ≤ depth)
      × ((leb depth (length chain) ≡ true) ⊎ IsWhole g.nodes [] key chain)
unfolding ancestors
ancestors_lem g cgroup_id pid max_depth =
    let key : NodeKey = record { cgroup_id = cgroup_id; pid = pid } in
    let depth = if nat_eq max_depth 0 then max_ancestors else max_depth in
    let c = climb-Climbed g.nodes depth [] key in
    (
      climb g.nodes depth [] key,
      refl,
      c.line,
      c.no_repeat,
      c.within,
      elim c.whole [ inl cut ↦ inl (ground (arith, cut)) | inr whole ↦ inr whole ],
    )
