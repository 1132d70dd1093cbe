-- ===== src/Collector/Network/Summary.antt =====
-- pkg/collector/network.go: the counts of a summary.
use self_healing_kubernetes.Base.{
  ℕ, ◌+◌, ◌%◌, ◌^◌, ◌≡◌, refl, ap, ◌∙◌, inl, inr, String, Option, none, some, List, [], ◌∷◌, tally,
  arith, nat_eq, string_Eq, if◌then◌else◌, Keyed, lookup, insert, lookup-insert, nat_Eq, Bool-cases,
}
use self_healing_kubernetes.Collector.Polling.{Floats}
use self_healing_kubernetes.Collector.Network.{
  ConnSample, NetSummary, count_state, add_flow, summary_or_new, summarise,
}

module _ (floats : Floats) where
  abbrev pub by_state : NetSummary floats → ℕ
  by_state s = s.established + s.time_wait + s.close_wait + s.listen + s.other_states

  abbrev pub flows_in : Option (NetSummary floats) → ℕ
  flows_in none = 0
  flows_in (some s) = s.active_flows

  abbrev pub states_in : Option (NetSummary floats) → ℕ
  states_in none = 0
  states_in (some s) = by_state s

  abbrev pub retransmits_in : Option (NetSummary floats) → ℕ
  retransmits_in none = 0
  retransmits_in (some s) = s.total_retransmits

  -- The retransmits of the flows of a cgroup, summed in uint32.
  abbrev pub retransmits_of : ℕ → List (ConnSample floats) → (sum : ℕ) → ℕ
  retransmits_of id [] sum = sum
  retransmits_of id (f ∷ flows) sum =
      retransmits_of id flows
        (if nat_eq f.cgroup_id id then (sum + f.retransmits) % 2 ^ 32 else sum)

  count_state-fields :
      (state : String) (s : NetSummary floats)
      → ((count_state floats state s).active_flows ≡ s.active_flows)
        × ((count_state floats state s).total_retransmits ≡ s.total_retransmits)
        × (by_state (count_state floats state s) ≡ by_state s + 1)
  unfolding count_state
  count_state-fields state s = (ground arith, ground arith, ground arith)

  summary-fields :
      (f : ConnSample floats) (o : Option (NetSummary floats))
      → ((summary_or_new floats f o).active_flows ≡ flows_in o)
        × ((summary_or_new floats f o).total_retransmits ≡ retransmits_in o)
        × (by_state (summary_or_new floats f o) ≡ states_in o)
  summary-fields f none = (refl, refl, refl)
  summary-fields f (some s) = (refl, refl, refl)

  abbrev bumped : ConnSample floats → Option (NetSummary floats) → NetSummary floats
  bumped f o = record (summary_or_new floats f o) {
    active_flows = (summary_or_new floats f o).active_flows + 1;
    total_retransmits = ((summary_or_new floats f o).total_retransmits + f.retransmits) % 2 ^ 32;
  }

  add_flow-fields :
      (f : ConnSample floats) (o : Option (NetSummary floats))
      → ((add_flow floats f (summary_or_new floats f o)).active_flows ≡ flows_in o + 1)
        × ((add_flow floats f (summary_or_new floats f o)).total_retransmits
            ≡ (retransmits_in o + f.retransmits) % 2 ^ 32)
        × (by_state (add_flow floats f (summary_or_new floats f o)) ≡ states_in o + 1)
  add_flow-fields f o =
      let counts = count_state-fields f.state (bumped f o) in
      let start = summary-fields f o in
      (
        omega (arith, counts.0, start.0),
        counts.1 ∙ ap (λ n. (n + f.retransmits) % 2 ^ 32) start.1,
        omega (arith, counts.2, start.2),
      )

  with_flow : ConnSample floats → Keyed ℕ (NetSummary floats) → Keyed ℕ (NetSummary floats)
  with_flow f m =
      insert f.cgroup_id (add_flow floats f (summary_or_new floats f (lookup f.cgroup_id m))) m

  insert-fields :
      (f : ConnSample floats) (m : Keyed ℕ (NetSummary floats)) (id : ℕ)
      → (flows_in (lookup id (with_flow f m))
          ≡ flows_in (lookup id m) + (if nat_eq f.cgroup_id id then 1 else 0))
        × (states_in (lookup id (with_flow f m))
            ≡ states_in (lookup id m) + (if nat_eq f.cgroup_id id then 1 else 0))
        × (retransmits_in (lookup id (with_flow f m)) ≡ (
            if nat_eq f.cgroup_id id
            then (retransmits_in (lookup id m) + f.retransmits) % 2 ^ 32
            else retransmits_in (lookup id m)))
  unfolding with_flow
  insert-fields f m id =
      let new = add_flow floats f (summary_or_new floats f (lookup f.cgroup_id m)) in
      let found = lookup-insert f.cgroup_id id new m in
      let fields = add_flow-fields f (lookup f.cgroup_id m) in
      elim (Bool-cases (nat_eq f.cgroup_id id)) [
        | inl e ↦
            let same : lookup f.cgroup_id m ≡ lookup id m =
              ap (λ k. lookup k m) (ground (arith, e)) in
            let now : lookup id (with_flow f m) ≡ some new = ground (arith, found, e) in
            (
              ap flows_in now ∙ fields.0 ∙ ground (arith, same, e),
              ap states_in now ∙ fields.2 ∙ ground (arith, same, e),
              ap retransmits_in now ∙ fields.1 ∙ ground (arith, same, e),
            )
        | inr e ↦
            let old : lookup id (with_flow f m) ≡ lookup id m = ground (arith, found, e) in
            (ground (arith, old, e), ground (arith, old, e), ground (arith, old, e))
      ]

  summarise-from :
      (flows : List (ConnSample floats)) (m : Keyed ℕ (NetSummary floats)) (id : ℕ)
      → (flows_in (lookup id (summarise floats flows m))
          ≡ flows_in (lookup id m) + tally (λ f. nat_eq f.cgroup_id id) flows)
        × (states_in (lookup id (summarise floats flows m))
            ≡ states_in (lookup id m) + tally (λ f. nat_eq f.cgroup_id id) flows)
        × (retransmits_in (lookup id (summarise floats flows m))
            ≡ retransmits_of id flows (retransmits_in (lookup id m)))
  unfolding summarise with_flow
  summarise-from [] m id = (omega arith, omega arith, refl)
  summarise-from (f ∷ flows) m id =
      let step = insert-fields f m id in
      let rest = summarise-from flows (with_flow f m) id in
      (
        omega (arith, rest.0, step.0),
        omega (arith, rest.1, step.1),
        rest.2 ∙ ap (retransmits_of id flows) step.2,
      )

  -- For each cgroup: the summary, if there is one, counts the flows of the cgroup, both in all and over the
  -- states, and sums their retransmits in 32 bits; a cgroup without a summary has no flow.
  pub summarise-counts :
      (flows : List (ConnSample floats)) (id : ℕ)
      → (flows_in (lookup id (summarise floats flows []))
          ≡ tally (λ f. nat_eq f.cgroup_id id) flows)
        × (states_in (lookup id (summarise floats flows []))
            ≡ tally (λ f. nat_eq f.cgroup_id id) flows)
        × (retransmits_in (lookup id (summarise floats flows [])) ≡ retransmits_of id flows 0)
  unfolding lookup
  summarise-counts flows id =
      let all = summarise-from flows [] id in (omega (arith, all.0), omega (arith, all.1), all.2)
