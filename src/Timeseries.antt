-- ===== src/Timeseries.antt =====
-- pkg/timeseries/timeseries.go: the circular buffer. The lock is left out. `fill` is the zero value
-- of the element type.
pub mod Recent
mod Tests
use self_healing_kubernetes.Base.{
  ℕ, ◌+◌, ◌-◌, ◌%◌, Option, none, some, List, [], length, set, replicate, ltb, nat_eq,
  if◌then◌else◌,
}
use self_healing_kubernetes.Base.Ring.{read_wrapped}

module _ (A : Type 0) where
  pub record Buffer : Type 0 where
    pub items : List A
    pub head : ℕ
    pub size : ℕ
    pub capacity : ℕ

  unfoldable pub new_buffer : (fill : A) → ℕ → Buffer
  new_buffer fill capacity = record {
    items = replicate capacity fill;
    head = 0;
    size = 0;
    capacity = capacity;
  }

  -- `none` is the panic on the write out of range.
  unfoldable pub push : A → Buffer → Option Buffer
  push item b =
      if ltb b.head (length b.items)
      then some (record b {
        items = set b.items b.head item;
        head = (b.head + 1) % b.capacity;
        size = if ltb b.size b.capacity then b.size + 1 else b.size;
      })
      else none

  unfoldable pub snapshot : Buffer → Option (List A)
  snapshot b =
      if nat_eq b.size 0
      then some []
      else read_wrapped b.items b.capacity ((b.head + b.capacity - b.size) % b.capacity) b.size 0

  unfoldable pub clear : Buffer → Buffer
  clear b = record b { head = 0; size = 0 }
