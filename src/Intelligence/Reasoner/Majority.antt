-- ===== src/Intelligence/Reasoner/Majority.antt =====
-- The root cause against the counts of the signals.
use self_healing_kubernetes.Base.{
  ℕ, ◌+◌, ◌*◌, ◌/◌, ◌<◌, ◌≡◌, refl, ap, String, Bool, not, ◌&&◌, some, List, [], ◌∷◌, arith, length,
  tally, ltb, ◌==◌, string_Eq, if◌then◌else◌, Keyed, lookup, insert, lookup-insert, Time,
}
use self_healing_kubernetes.Analyzer.Window.{Floats}
use self_healing_kubernetes.Intelligence.Incident.{
  AnomalyEntry, NodeIncident, IncidentEvent, degraded_disk, network_partition, cpu_starvation,
  memory_pressure, unknown,
}
use self_healing_kubernetes.Intelligence.Graph.{DependencyGraph}
use self_healing_kubernetes.Intelligence.Reasoner.{
  count_at, count_signals, pattern_matches_majority, count_all, hundredth, root_cause_patterns,
  first_match, cause_of, classify,
}

-- How often a signal stands in a list.
abbrev pub occurrences : String → List String → ℕ
occurrences sig sigs = tally (λ s. s == sig) sigs

count_at-count_signals :
    (sig : String) (sigs : List String) (counts : Keyed String ℕ)
    → count_at sig (count_signals sigs counts) ≡ count_at sig counts + occurrences sig sigs
unfolding count_at count_signals
count_at-count_signals sig [] counts = omega arith
count_at-count_signals sig (s ∷ sigs) counts = ground (
  arith,
  count_at-count_signals sig sigs (insert s (count_at s counts + 1) counts),
  lookup-insert s sig (count_at s counts + 1) counts,
  string_Eq.equal_iff s sig,
  ap (λ x. count_at x counts) {x = s} {y = sig},
)

module _ (floats : Floats) where
  -- How often a signal is reported by the pods together.
  abbrev pub reports : String → List (AnomalyEntry floats) → ℕ
  reports sig [] = 0
  reports sig (a ∷ anomalies) = occurrences sig a.signals + reports sig anomalies

  count_at-count_all :
      (sig : String) (anomalies : List (AnomalyEntry floats)) (counts : Keyed String ℕ)
      → count_at sig (count_all floats anomalies counts)
        ≡ count_at sig counts + reports sig anomalies
  unfolding count_all
  count_at-count_all sig [] counts = omega arith
  count_at-count_all sig (a ∷ anomalies) counts = omega (
    arith,
    count_at-count_all sig anomalies (count_signals a.signals counts),
    count_at-count_signals sig a.signals counts,
  )

  -- More than 60 percent of the pods, counted by the reports.
  abbrev pub is_majority : String → List (AnomalyEntry floats) → Bool
  is_majority sig anomalies = ltb (3 * length anomalies) (5 * reports sig anomalies)

  -- The first root cause whose signals are all reported by a majority.
  abbrev pub cause_by_reports : List (AnomalyEntry floats) → String
  cause_by_reports anomalies =
      if is_majority "io_wait_high" anomalies && is_majority "disk_io_lat" anomalies
      then degraded_disk
      else if is_majority "tcp_retransmit" anomalies
      then network_partition
      else if is_majority "cpu_runqueue_delay" anomalies
      then cpu_starvation
      else if is_majority "oom_kill" anomalies
      then memory_pressure
      else unknown

  enough-is_majority :
      (sig : String) (anomalies : List (AnomalyEntry floats))
      → not (ltb (count_at sig (count_all floats anomalies [])) (length anomalies * 3 / 5 + 1))
        ≡ is_majority sig anomalies
  enough-is_majority sig anomalies =
      let empty : count_at sig [] ≡ 0 = unfold count_at lookup in refl in
      ground (arith, count_at-count_all sig anomalies [], empty)

  cause_of-first_match :
      (anomalies : List (AnomalyEntry floats))
      → (cause_of floats (
          first_match floats
            (count_all floats anomalies [])
            (length anomalies * 3 / 5 + 1)
            (root_cause_patterns floats))).root_cause
        ≡ cause_by_reports anomalies
  unfolding first_match pattern_matches_majority cause_of
  cause_of-first_match anomalies = ground (
    arith,
    enough-is_majority "io_wait_high" anomalies,
    enough-is_majority "disk_io_lat" anomalies,
    enough-is_majority "tcp_retransmit" anomalies,
    enough-is_majority "cpu_runqueue_delay" anomalies,
    enough-is_majority "oom_kill" anomalies,
  )

  classify_from :
      (equal_fold : String → String → Bool) (g : DependencyGraph) (now : Time) (node_name : String)
      (window_end : Time) (sig : String) (anomalies : List (AnomalyEntry floats))
      → 0 < length anomalies
      → floats.truncate (floats.multiply (floats.from_nat (length anomalies)) (hundredth floats 60))
        ≡ some (length anomalies * 3 / 5)
      → (ev : IncidentEvent floats) × (classify floats equal_fold g now
            (record { node_name = node_name; anomalies = anomalies; window_end = window_end })
          ≡ some ev)
        × (ev.root_cause ≡ cause_by_reports anomalies)
        × (count_at sig ev.signal_summary ≡ reports sig anomalies)
  unfolding classify
  classify_from equal_fold g now node_name window_end sig [] pos h = absurd (omega (arith, pos))
  classify_from equal_fold g now node_name window_end sig (first ∷ rest) pos h =
      let anomalies : List (AnomalyEntry floats) = first ∷ rest in
      let empty : count_at sig [] ≡ 0 = unfold count_at lookup in refl in
      (
        _,
        refl,
        rw h (cause_of-first_match anomalies),
        omega (arith, count_at-count_all sig anomalies [], empty),
      )

  -- Where the product of the number of pods and 0.6 is cut to three fifths of it, rounded down, the
  -- incident of one or more pods is classified: its summary holds how often each signal is reported,
  -- and its root cause is the first in the order disk, network, CPU, memory of which each signal has
  -- reports that are more than three fifths of the pods, or unknown.
  pub classify-cause :
      (equal_fold : String → String → Bool) (g : DependencyGraph) (now : Time)
      (incident : NodeIncident floats) (sig : String)
      → 0 < length incident.anomalies
      → floats.truncate
          (floats.multiply (floats.from_nat (length incident.anomalies)) (hundredth floats 60))
        ≡ some (length incident.anomalies * 3 / 5)
      → (ev : IncidentEvent floats) × (classify floats equal_fold g now incident ≡ some ev)
        × (ev.root_cause ≡ cause_by_reports incident.anomalies)
        × (count_at sig ev.signal_summary ≡ reports sig incident.anomalies)
  classify-cause equal_fold g now incident sig pos h =
      classify_from equal_fold g now incident.node_name incident.window_end sig incident.anomalies
        pos h
