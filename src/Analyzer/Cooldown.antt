-- ===== src/Analyzer/Cooldown.antt =====
-- internal/analyzer/cooldown.go: the cooldowns of the analyzer, with the policy given at each call.
pub mod Log
use self_healing_kubernetes.Base.{
  ℕ, ◌+◌, ◌-◌, ◌*◌, String, ◌≡◌, ◌↔◌, Bool, true, false, ◌&&◌, Option, none, some, List, [], ◌∷◌,
  ◌++◌, arith, keep, tally, ltb, Eq, ◌==◌, string_Eq, if◌then◌else◌, Keyed, lookup, insert,
  delete_if, Time, Duration, second, hour, within,
}

pub record CooldownPolicy : Type 0 where
  pub duration : Duration
  pub max_per_hour : ℕ

abbrev pub default_cooldowns : Keyed String CooldownPolicy
default_cooldowns =
    ("restart_pod", record { duration = 60 * second; max_per_hour = 3 })
    ∷ ("patch_resource_limits", record { duration = 300 * second; max_per_hour = 2 })
    ∷ ("reschedule_pod", record { duration = 120 * second; max_per_hour = 2 })
    ∷ ("cordon_node", record { duration = 600 * second; max_per_hour = 1 })
    ∷ []

pub record CooldownEntry : Type 0 where
  pub last_action : Time
  pub recent_times : List Time

pub record CooldownKey : Type 0 where
  pub pod : String
  pub action_type : String

abbrev pub key_beq : CooldownKey → CooldownKey → Bool
key_beq a b = a.pod == b.pod && a.action_type == b.action_type

pub key_beq_iff : (a b : CooldownKey) → (key_beq a b ≡ true) ↔ (a ≡ b)
key_beq_iff a b = (
  ground (arith, string_Eq.equal_iff a.pod b.pod, string_Eq.equal_iff a.action_type b.action_type),
  ground (arith, string_Eq.equal_iff a.pod b.pod, string_Eq.equal_iff a.action_type b.action_type),
)

instance abbrev pub key_Eq : Eq CooldownKey
key_Eq = record { equal = key_beq; equal_iff = key_beq_iff }

abbrev pub CooldownStore : Type 0
CooldownStore = Keyed CooldownKey CooldownEntry

-- The tests of `Allow` on what the map holds.
unfoldable pub permits : Option CooldownEntry → CooldownPolicy → Time → Bool
permits none policy now = true
permits (some entry) policy now =
    if within now policy.duration entry.last_action
    then false
    else ltb (tally (within now hour) entry.recent_times) policy.max_per_hour

unfoldable pub allow :
    Keyed CooldownKey CooldownEntry → (pod action_type : String) → CooldownPolicy → Time → Bool
allow c pod action_type = permits (lookup (record { pod = pod; action_type = action_type }) c)

-- `&cooldownEntry{}`
abbrev pub fresh_entry : CooldownEntry
fresh_entry = record { last_action = 0; recent_times = [] }

-- The entry after `Record`: `now` is appended and the list is pruned.
unfoldable pub acted : Option CooldownEntry → Time → CooldownEntry
acted o now =
    let entry : CooldownEntry = elim o [ none ↦ fresh_entry | some entry ↦ entry ] in
    record {
      last_action = now;
      recent_times = keep (within now hour) (entry.recent_times ++ now ∷ []);
    }

-- `Record`
unfoldable pub record_action :
    Keyed CooldownKey CooldownEntry
    → (pod action_type : String) → Time
    → Keyed CooldownKey CooldownEntry
record_action c pod action_type now =
    let key : CooldownKey = record { pod = pod; action_type = action_type } in
    insert key (acted (lookup key c) now) c

unfoldable pub remaining_cooldown :
    Keyed CooldownKey CooldownEntry → (pod action_type : String) → CooldownPolicy → Time → Duration
remaining_cooldown c pod action_type policy now =
    elim (lookup (record { pod = pod; action_type = action_type }) c) [
      | none ↦ 0
      | some entry ↦ entry.last_action + policy.duration - now
    ]

unfoldable pub evict : Keyed CooldownKey CooldownEntry → String → Keyed CooldownKey CooldownEntry
evict c pod = delete_if (λ k. k.pod == pod) c
