-- ===== src/Guardrails/Cooldown/Waiting.antt =====
-- The reported wait against the decision, and the reset.
use self_healing_kubernetes.Base.{
  String, ◌≡◌, ◌↔◌, true, ◌&&◌, ◌||◌, arith, tally-keep, inl, inr, Option, Option-cases, ◌==◌,
  string_Eq, lookup, lookup-delete_if, Time, Duration, hour, within,
}
use self_healing_kubernetes.Guardrails.Cooldown.{
  CooldownKey, CooldownStore, key_Eq, entry_of, blocked, allow, time_until_next, reset,
}

module _ (parse_duration : String → Option Duration) where
  -- `TimeUntilNext` reports no wait exactly when `Allow` grants the action, for every store.
  time_until_next-eq-zero_iff :
      (c : CooldownStore) (key : CooldownKey) (now : Time)
      → (time_until_next parse_duration c key now ≡ 0) ↔ ((allow parse_duration c key now).0 ≡ true)
  unfolding time_until_next allow entry_of blocked
  time_until_next-eq-zero_iff c key now = elim (Option-cases (lookup key c.entries)) [
    | inl e ↦ (ground arith, ground arith)
    | inr (entry, e) ↦ (
      ground (arith, tally-keep (within now hour) entry.history),
      ground (arith, tally-keep (within now hour) entry.history),
    )
  ]

  -- After `Reset` every action on the pod is granted at once, whatever was done before, and the
  -- answers for the other pods are what they would have been.
  pub allow-reset :
      (c : CooldownStore) (pod namespace : String) (key : CooldownKey) (now : Time)
      → (allow parse_duration (reset c pod namespace) key now).0
        ≡ ((key.pod == pod && key.namespace == namespace) || (allow parse_duration c key now).0)
  unfolding allow reset entry_of blocked
  allow-reset c pod namespace key now = ground (
    arith,
    lookup-delete_if (λ (k : CooldownKey). k.pod == pod && k.namespace == namespace) key c.entries,
  )
