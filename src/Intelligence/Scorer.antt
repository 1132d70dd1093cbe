-- ===== src/Intelligence/Scorer.antt =====
-- internal/intelligence/scorer.go: the health score of each node. The lock, the gauge and the logs
-- are left out; what writes the gauge computes the score and so prunes the times. An operation takes
-- the clock readings of the code in their order.
pub mod Severity
use self_healing_kubernetes.Base.{
  ℕ, suc, ◌+◌, ◌-◌, ◌*◌, String, Bool, true, false, not, Option, none, some, List, [], ◌∷◌, ◌++◌,
  length, keep, map, ltb, nat_eq, ◌==◌, string_Eq, if◌then◌else◌, Keyed, lookup, insert, Time,
  Duration, minute, hour, within, stale, reverse,
}
use self_healing_kubernetes.Analyzer.Window.{Floats}

pub record NodeStats : Type 0 where
  pub total_anomalies : ℕ
  pub unresolved_count : ℕ
  pub escalated_count : ℕ
  pub anomaly_timestamps : List Time
  pub last_updated : Time

abbrev pub new_stats : Time → NodeStats
new_stats now = record {
  total_anomalies = 0;
  unresolved_count = 0;
  escalated_count = 0;
  anomaly_timestamps = [];
  last_updated = now;
}

-- `getOrCreate`; the entry is stored by the caller.
unfoldable pub get_or_create : String → Time → Keyed String NodeStats → NodeStats
get_or_create node now stats = elim (lookup node stats) [ none ↦ new_stats now | some ns ↦ ns ]

-- The pruning in `computeScore`.
unfoldable pub prune : Time → NodeStats → NodeStats
prune now ns = record ns { anomaly_timestamps = keep (within now hour) ns.anomaly_timestamps }

unfoldable pub record_anomaly :
    String → (created now at : Time) → Keyed String NodeStats → Keyed String NodeStats
record_anomaly node created now at stats =
    let ns = get_or_create node created stats in
    insert node
      (prune at (record ns {
        total_anomalies = ns.total_anomalies + 1;
        unresolved_count = ns.unresolved_count + 1;
        anomaly_timestamps = ns.anomaly_timestamps ++ now ∷ [];
        last_updated = now;
      }))
      stats

-- The switch of `RecordOutcome`; the count does not fall below 0.
unfoldable pub after_outcome : String → NodeStats → NodeStats
after_outcome outcome ns =
    if outcome == "resolved"
    then record ns { unresolved_count = ns.unresolved_count - 1 }
    else if outcome == "escalated"
    then record ns {
      unresolved_count = ns.unresolved_count - 1;
      escalated_count = ns.escalated_count + 1;
    }
    else if outcome == "cordon"
    then record ns {
      unresolved_count = ns.unresolved_count - 1;
      escalated_count = ns.escalated_count + 1;
    }
    else ns

unfoldable pub record_outcome :
    (node outcome : String)
    → (created now at : Time) → Keyed String NodeStats
    → Keyed String NodeStats
record_outcome node outcome created now at stats =
    insert node
      (prune at
        (record (after_outcome outcome (get_or_create node created stats)) { last_updated = now }))
      stats

-- What `AllScores` and `UnhealthyNodes` leave of the statistics.
unfoldable pub prune_all : (now : Time) → Keyed String NodeStats → Keyed String NodeStats
prune_all now [] = []
prune_all now ((node, ns) ∷ rest) = (node, prune now ns) ∷ prune_all now rest

unfoldable pub decay_all : (now at : Time) → Keyed String NodeStats → Keyed String NodeStats
decay_all now at [] = []
decay_all now at ((node, ns) ∷ rest) =
    let ns' : NodeStats =
      if stale now (15 * minute) ns.last_updated
      then record ns { unresolved_count = ns.unresolved_count - 1 }
      else ns in
    (node, prune at ns') ∷ decay_all now at rest

module _ (floats : Floats) where
  open floats use {Float}

  pub record NodeScore : Type 0 where
    pub node_name : String
    pub score : Float
    pub tier : String

  abbrev pub hundredth : ℕ → Float
  hundredth n = floats.divide (floats.from_nat n) (floats.from_nat 100)

  abbrev pub capped : Float → Float
  capped x = if floats.greater x (floats.from_nat 1) then floats.from_nat 1 else x

  -- `computeScore` on pruned times.
  unfoldable pub score_of : NodeStats → Float
  score_of ns =
      if nat_eq ns.total_anomalies 0
      then floats.from_nat 1
      else let total = floats.from_nat ns.total_anomalies in
        let rate =
          capped
            (floats.divide (floats.from_nat (length ns.anomaly_timestamps)) (floats.from_nat 10)) in
        let unresolved = capped (floats.divide (floats.from_nat ns.unresolved_count) total) in
        let escalation = capped (floats.divide (floats.from_nat ns.escalated_count) total) in
        let score =
          floats.subtract
            (floats.subtract
              (floats.subtract (floats.from_nat 1) (floats.multiply rate (hundredth 40)))
              (floats.multiply unresolved (hundredth 35)))
            (floats.multiply escalation (hundredth 25)) in
        if floats.greater floats.zero score then floats.zero else score

  unfoldable pub compute_score : Time → NodeStats → Float
  compute_score now ns = score_of (prune now ns)

  -- `Score`: the score and the statistics, whose times it prunes too.
  unfoldable pub score : String → Time → Keyed String NodeStats → Float × Keyed String NodeStats
  score node now stats = elim (lookup node stats) [
    | none ↦ (floats.from_nat 1, stats)
    | some ns ↦ (compute_score now ns, insert node (prune now ns) stats)
  ]

  unfoldable pub tier_of : Float → String
  tier_of score =
      if floats.greater (hundredth 40) score
      then "unhealthy"
      else if floats.greater (hundredth 70) score
      then "amber"
      else "healthy"

  -- The answer of `AllScores`, in the order of the entries, with one clock reading; `prune_all` is its
  -- effect.
  unfoldable pub all_scores : Time → Keyed String NodeStats → List NodeScore
  all_scores now [] = []
  all_scores now ((node, ns) ∷ rest) =
      record {
        node_name = node;
        score = compute_score now ns;
        tier = tier_of (compute_score now ns);
      }
      ∷ all_scores now rest

  abbrev pub below : NodeScore → NodeScore → Bool
  below a b = floats.greater b.score a.score

  -- The inner loop of the sort on what stands before the element, the last one first.
  unfoldable pub sink : NodeScore → List NodeScore → List NodeScore
  sink x [] = x ∷ []
  sink x (y ∷ ys) = let rest = sink x ys in if below x y then y ∷ rest else x ∷ y ∷ ys

  -- The outer loop; the sorted part has its last element first.
  unfoldable pub sort_from : (sorted rest : List NodeScore) → List NodeScore
  sort_from sorted [] = sorted
  sort_from sorted (x ∷ rest) = sort_from (sink x sorted) rest

  unfoldable pub unhealthy_nodes :
      (threshold : Float) → Time → Keyed String NodeStats → List NodeScore
  unhealthy_nodes threshold now stats =
      reverse (sort_from [] (keep (λ ns. floats.greater threshold ns.score) (all_scores now stats)))
