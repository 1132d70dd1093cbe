-- ===== src/Intelligence/Aggregator/Flushing.antt =====
-- A flush reports a node when enough of its pods are anomalous at once.
use self_healing_kubernetes.Base.{
  ◌≤◌, ◌≡◌, refl, ap, ◌∙◌, ◌⊎◌, inl, inr, String, Bool, true, false, ◌||◌, Option, none, some, List,
  [], ◌∷◌, ◌++◌, arith, map, length, drop, keep, any, All, All-imp, ltb, nat_eq, ◌==◌, string_Eq,
  if◌then◌else◌, Bool-cases, Keyed, lookup, lookup-cons, Distinct, beq_refl, Time, within,
}
use self_healing_kubernetes.Analyzer.Window.{Floats}
use self_healing_kubernetes.Intelligence.Incident.{AnomalyEntry, NodeIncident}
use self_healing_kubernetes.Intelligence.Aggregator.{
  AggregatorConfig, Aggregator, pod_key, fresh_entries, unique_pods, flush_window, put,
  flush_windows, flush,
}

module _ (floats : Floats) where
  abbrev pub keys_of : List (AnomalyEntry floats) → List String
  keys_of es = map (λ e. pod_key floats e) es

  abbrev pub has_key : String → List String → Bool
  has_key k ks = any (λ x. x == k) ks

  -- No key twice, and none of those that were seen.
  abbrev pub IsNew : List String → List (AnomalyEntry floats) → Type 0
  IsNew seen [] = Unit
  IsNew seen (e ∷ es) =
      (has_key (pod_key floats e) seen ≡ false) × IsNew (pod_key floats e ∷ seen) es

  unique_pods-IsNew :
      (seen : List String) (es : List (AnomalyEntry floats))
      → IsNew seen (unique_pods floats seen es)
  unfolding unique_pods
  unique_pods-IsNew seen [] = tt
  unique_pods-IsNew seen (e ∷ es) = elim (Bool-cases (has_key (pod_key floats e) seen)) [
    | inl old ↦ rw old (unique_pods-IsNew seen es)
    | inr new ↦ rw new (new, unique_pods-IsNew (pod_key floats e ∷ seen) es)
  ]

  -- Every pod of the entries stays, or was seen.
  unique_pods-has_key :
      (seen : List String) (es : List (AnomalyEntry floats)) (k : String)
      → has_key k (keys_of (unique_pods floats seen es)) || has_key k seen
        ≡ has_key k (keys_of es) || has_key k seen
  unfolding unique_pods
  unique_pods-has_key seen [] k = refl
  unique_pods-has_key seen (e ∷ es) k = ground (
    arith,
    unique_pods-has_key seen es k,
    unique_pods-has_key (pod_key floats e ∷ seen) es k,
    string_Eq.equal_iff (pod_key floats e) k,
    ap (λ x. has_key x seen) {x = pod_key floats e} {y = k},
  )

  unique_pods-All {ℓ} :
      (P : AnomalyEntry floats → Type ℓ) (seen : List String) (es : List (AnomalyEntry floats))
      → All P es
      → All P (unique_pods floats seen es)
  unfolding unique_pods
  unique_pods-All P seen [] h = tt
  unique_pods-All P seen (e ∷ es) h = elim (Bool-cases (has_key (pod_key floats e) seen)) [
    | inl old ↦ rw old (unique_pods-All P seen es h.1)
    | inr new ↦ rw new (h.0, unique_pods-All P (pod_key floats e ∷ seen) es h.1)
  ]

  -- Every element that passes the test of `keep` passes it afterwards.
  keep-All :
      (p : AnomalyEntry floats → Bool) (es : List (AnomalyEntry floats))
      → All (λ e. p e ≡ true) (keep p es)
  keep-All p [] = tt
  keep-All p (e ∷ es) = elim (Bool-cases (p e)) [
    | inl kept ↦ rw kept (kept, keep-All p es)
    | inr dropped ↦ rw dropped (keep-All p es)
  ]

  -- An incident of one of the windows: enough pods, none twice, all within the aggregation window,
  -- and just the pods of the entries there.
  pub record IsIncident (cfg : AggregatorConfig) (now : Time)
      (windows : Keyed String (List (AnomalyEntry floats))) (i : NodeIncident floats) : Type 0 where
    pub node : String
    pub entries : List (AnomalyEntry floats)
    pub found : lookup node windows ≡ some entries
    pub enough : cfg.min_pods_threshold ≤ length i.anomalies
    pub once : IsNew [] i.anomalies
    pub recent : All (λ e. within now cfg.aggregation_window e.received_at ≡ true) i.anomalies
    pub complete :
        (k : String)
        → has_key k (keys_of i.anomalies)
          ≡ has_key k (keys_of (fresh_entries floats cfg.aggregation_window now entries))

  -- The window that stays of one that is flushed.
  abbrev pub kept_of :
      AggregatorConfig
      → Time
      → Option (List (AnomalyEntry floats))
      → Option (List (AnomalyEntry floats))
  kept_of cfg now none = none
  kept_of cfg now (some entries) =
      let fresh = fresh_entries floats cfg.aggregation_window now entries in
      let unique = unique_pods floats [] fresh in
      if nat_eq (length fresh) 0
      then none
      else if ltb (length unique) cfg.min_pods_threshold
      then some (unique ++ drop (length unique) fresh)
      else none

  flush_window-cases :
      (cfg : AggregatorConfig) (now end' : Time) (entries : List (AnomalyEntry floats))
      → ((flush_window floats cfg now end' entries).0 ≡ kept_of cfg now (some entries))
        × (((flush_window floats cfg now end' entries).1 ≡ none)
            ⊎ ((i : NodeIncident floats) × ((flush_window floats cfg now end' entries).1 ≡ some i)
                × (i.anomalies
                    ≡ unique_pods floats []
                        (fresh_entries floats cfg.aggregation_window now entries))
                × (cfg.min_pods_threshold ≤ length i.anomalies)))
  unfolding flush_window
  flush_window-cases cfg now end' entries =
      let fresh = fresh_entries floats cfg.aggregation_window now entries in
      let unique = unique_pods floats [] fresh in
      elim (Bool-cases (nat_eq (length fresh) 0)) [
        | inl empty ↦ rw empty (refl, inl refl)
        | inr some' ↦ elim (Bool-cases (ltb (length unique) cfg.min_pods_threshold)) [
          | inl few ↦ rw (some', few) (refl, inl refl)
          | inr many ↦ rw (some', many) (refl, inr (_, refl, refl, ground arith))
        ]
      ]

  IsIncident-window :
      (cfg : AggregatorConfig) (now : Time) (node : String) (entries : List (AnomalyEntry floats))
      (rest : Keyed String (List (AnomalyEntry floats))) (i : NodeIncident floats)
      → i.anomalies
        ≡ unique_pods floats [] (fresh_entries floats cfg.aggregation_window now entries)
      → cfg.min_pods_threshold ≤ length i.anomalies
      → IsIncident cfg now ((node, entries) ∷ rest) i
  IsIncident-window cfg now node entries rest i e h =
      let fresh = fresh_entries floats cfg.aggregation_window now entries in
      record {
        node = node;
        entries = entries;
        found = rw (lookup-cons node node entries rest, beq_refl node) refl;
        enough = h;
        once = rw e (unique_pods-IsNew [] fresh);
        recent = rw e (
            unique_pods-All (λ x. within now cfg.aggregation_window x.received_at ≡ true) [] fresh
              (keep-All (λ x. within now cfg.aggregation_window x.received_at) entries));
        complete = λ k. rw e (ground (arith, unique_pods-has_key [] fresh k));
      }

  IsIncident-behind :
      (cfg : AggregatorConfig) (now : Time) (node : String) (entries : List (AnomalyEntry floats))
      (rest : Keyed String (List (AnomalyEntry floats))) (i : NodeIncident floats)
      → lookup node rest ≡ none
      → IsIncident cfg now rest i
      → IsIncident cfg now ((node, entries) ∷ rest) i
  IsIncident-behind cfg now node entries rest i absent h = record {
    node = h.node;
    entries = h.entries;
    found = ground (
      arith,
      lookup-cons node h.node entries rest,
      h.found,
      absent,
      string_Eq.equal_iff node h.node,
      ap (λ x. lookup x rest) {x = node} {y = h.node},
    );
    enough = h.enough;
    once = h.once;
    recent = h.recent;
    complete = h.complete;
  }

  flush_windows-IsIncident :
      (cfg : AggregatorConfig) (now : Time) (ends : String → Time)
      (windows : Keyed String (List (AnomalyEntry floats)))
      → Distinct windows
      → All (IsIncident cfg now windows) (flush_windows floats cfg now ends windows).1
  unfolding flush_windows Distinct
  flush_windows-IsIncident cfg now ends [] d = tt
  flush_windows-IsIncident cfg now ends ((node, entries) ∷ rest) d =
      let later =
        All-imp (IsIncident cfg now rest) (IsIncident cfg now ((node, entries) ∷ rest))
          (flush_windows floats cfg now ends rest).1
          (λ i. IsIncident-behind cfg now node entries rest i d.0)
          (flush_windows-IsIncident cfg now ends rest d.1) in
      elim (flush_window-cases cfg now (ends node) entries).1 [
        | inl quiet ↦ rw quiet later
        | inr (i, out, e, h) ↦ rw out (IsIncident-window cfg now node entries rest i e h, later)
      ]

  lookup-put :
      (j node : String) (o : Option (List (AnomalyEntry floats)))
      (m : Keyed String (List (AnomalyEntry floats)))
      → lookup node m ≡ none
      → lookup j (put floats node o m) ≡ (if node == j then o else lookup j m)
  lookup-put j node none m h =
      ground (arith, h, string_Eq.equal_iff node j, ap (λ x. lookup x m) {x = node} {y = j})
  lookup-put j node (some kept) m h = lookup-cons node j kept m

  lookup-flush_windows :
      (cfg : AggregatorConfig) (now : Time) (ends : String → Time)
      (windows : Keyed String (List (AnomalyEntry floats))) (j : String)
      → Distinct windows
      → lookup j (flush_windows floats cfg now ends windows).0 ≡ kept_of cfg now (lookup j windows)
  unfolding flush_windows Distinct
  lookup-flush_windows cfg now ends [] j d = unfold lookup in refl
  lookup-flush_windows cfg now ends ((node, entries) ∷ rest) j d =
      let windows' = (flush_windows floats cfg now ends rest).0 in
      let kept = (flush_window floats cfg now (ends node) entries).0 in
      let absent : lookup node windows' ≡ none =
        lookup-flush_windows cfg now ends rest node d.1 ∙ ap (kept_of cfg now) d.0 in
      lookup-put j node kept windows' absent ∙ elim (Bool-cases (node == j)) [
        | inl same ↦
            rw (lookup-cons node j entries rest, same)
              (flush_window-cases cfg now (ends node) entries).0
        | inr other ↦
            rw (lookup-cons node j entries rest, other)
              (lookup-flush_windows cfg now ends rest j d.1)
      ]

  -- Every incident of a flush, on windows of distinct nodes, is of the window of one node, names at
  -- least the threshold of pods and no pod twice, only by entries within the aggregation window, and
  -- names every pod that has such an entry there. A node keeps its window exactly when it has such
  -- entries, of fewer pods than the threshold.
  pub flush-IsIncident :
      (now : Time) (ends : String → Time) (a : Aggregator floats) (node : String)
      → Distinct a.windows
      → All (IsIncident a.cfg now a.windows) (flush floats now ends a).1
        × (lookup node (flush floats now ends a).0.windows
            ≡ kept_of a.cfg now (lookup node a.windows))
  unfolding flush
  flush-IsIncident now ends a node d = (
    flush_windows-IsIncident a.cfg now ends a.windows d,
    lookup-flush_windows a.cfg now ends a.windows node d,
  )
