-- ===== src/ProcessGraph/Event.antt =====
-- pkg/event/envelope.go: the envelope of a security event, and how pkg/graph reads a number from its
-- metadata.
use self_healing_kubernetes.Base.{
  ℕ, ◌%◌, ◌^◌, String, Bool, List, Option, none, some, string_Eq, Keyed, lookup, Time,
}

-- A dynamic value. An `int` is its 64-bit pattern; a `float64` is the number that its conversion to
-- uint32 gives, which is all that is read of it.
pub data Value : Type 0 where
  uint16 uint32 int uint64 float64 : ℕ → Value
  text : String → Value
  texts : List String → Value
  flag : Bool → Value
  other : Value

pub record EventEnvelope : Type 0 where
  pub timestamp : Time
  pub cgroup_id : ℕ
  pub container_name : String
  pub pid : ℕ
  pub ppid : ℕ
  pub process : String
  pub parent_process : String
  pub event_type : String
  pub ancestry_truncated : Bool
  pub metadata : Keyed String Value

-- The type switch of `uint32Meta`.
abbrev pub as_uint32 : Value → Option ℕ
as_uint32 (uint32 x) = some x
as_uint32 (int x) = some (x % 2 ^ 32)
as_uint32 (uint64 x) = some (x % 2 ^ 32)
as_uint32 (float64 x) = some x
as_uint32 (uint16 x) = none
as_uint32 (text s) = none
as_uint32 (texts s) = none
as_uint32 (flag b) = none
as_uint32 other = none

unfoldable pub uint32_meta : Keyed String Value → String → Option ℕ
uint32_meta m key = elim (lookup key m) [ none ↦ none | some v ↦ as_uint32 v ]

abbrev pub as_text : Value → Option String
as_text (text s) = some s
as_text _ = none

-- `path, ok := m[key].(string)`
unfoldable pub text_meta : Keyed String Value → String → Option String
text_meta m key = elim (lookup key m) [ none ↦ none | some v ↦ as_text v ]
