-- ===== src/Guardrails/Cooldown.antt =====
-- internal/controller/guardrails/cooldown.go: the interval and the hourly cap of one action on one
-- pod. The `*cooldownEntry` of a key is stored again after each change.
pub mod Invariant
pub mod Replay
pub mod Waiting
use self_healing_kubernetes.Base.{
  ℕ, ◌+◌, ◌-◌, String, ◌≡◌, ◌↔◌, Bool, true, false, not, ◌&&◌, Option, none, some, List, [], ◌∷◌,
  ◌++◌, arith, length, keep, tally, ltb, leb, Eq, ◌==◌, string_Eq, if◌then◌else◌, Keyed, lookup,
  insert, delete_if, Time, Duration, hour, within, is_zero,
}
use self_healing_kubernetes.Guardrails.Policy.{Policy, cooldown_for, max_per_hour}

pub record CooldownKey : Type 0 where
  pub pod : String
  pub namespace : String
  pub action : String

abbrev pub key_beq : CooldownKey → CooldownKey → Bool
key_beq a b = a.pod == b.pod && (a.namespace == b.namespace && a.action == b.action)

pub key_beq_iff : (a b : CooldownKey) → (key_beq a b ≡ true) ↔ (a ≡ b)
key_beq_iff a b = (
  ground (
    arith,
    string_Eq.equal_iff a.pod b.pod,
    string_Eq.equal_iff a.namespace b.namespace,
    string_Eq.equal_iff a.action b.action,
  ),
  ground (
    arith,
    string_Eq.equal_iff a.pod b.pod,
    string_Eq.equal_iff a.namespace b.namespace,
    string_Eq.equal_iff a.action b.action,
  ),
)

instance abbrev pub key_Eq : Eq CooldownKey
key_Eq = record { equal = key_beq; equal_iff = key_beq_iff }

pub record CooldownEntry : Type 0 where
  pub last_action : Time
  pub history : List Time

pub record CooldownStore : Type 0 where
  pub entries : Keyed CooldownKey CooldownEntry
  pub policy : Policy

unfoldable pub new_cooldown_store : Policy → CooldownStore
new_cooldown_store policy = record { entries = []; policy = policy }

-- `&cooldownEntry{}`
abbrev pub fresh_entry : CooldownEntry
fresh_entry = record { last_action = 0; history = [] }

-- `entry, ok := c.entries[key]; if !ok { entry = &cooldownEntry{} }`
unfoldable pub entry_of : CooldownStore → CooldownKey → CooldownEntry
entry_of c key = elim (lookup key c.entries) [ none ↦ fresh_entry | some entry ↦ entry ]

module _ (parse_duration : String → Option Duration) where
  -- The two tests of `Allow` on an entry whose history is pruned.
  unfoldable pub blocked : Policy → String → Time → CooldownEntry → Bool
  blocked policy action now entry =
      if not (is_zero entry.last_action)
        && within now (cooldown_for parse_duration policy action) entry.last_action
      then true
      else ltb 0 (max_per_hour policy action)
        && leb (max_per_hour policy action) (length entry.history)

  unfoldable pub allow : CooldownStore → CooldownKey → Time → Bool × CooldownStore
  allow c key now =
      let entry = entry_of c key in
      let pruned = record entry { history = keep (within now hour) entry.history } in
      if blocked c.policy key.action now pruned
      then (false, record c { entries = insert key pruned c.entries })
      else (
        true,
        record c {
          entries =
              insert key (record { last_action = now; history = pruned.history ++ now ∷ [] })
                c.entries;
        },
      )

  -- The duration that `TimeUntilNext` returns; its text is left out.
  unfoldable pub time_until_next : CooldownStore → CooldownKey → Time → Duration
  time_until_next c key now = elim (lookup key c.entries) [
    | none ↦ 0
    | some entry ↦
        let cooldown = cooldown_for parse_duration c.policy key.action in
        let max = max_per_hour c.policy key.action in
        if not (is_zero entry.last_action) && within now cooldown entry.last_action
        then entry.last_action + cooldown - now
        else if ltb 0 max && leb max (tally (within now hour) entry.history)
        then hour
        else 0
  ]

unfoldable pub reset : CooldownStore → String → String → CooldownStore
reset c pod namespace = record c {
  entries = delete_if (λ key. key.pod == pod && key.namespace == namespace) c.entries;
}
