-- ===== src/Analyzer/Window.antt =====
-- internal/analyzer/window.go: the sliding window of one metric of one pod, and the store of all
-- the windows. The locks are left out. A `*Window` of the store is stored again after each change.
pub mod Eviction
pub mod Latest
use self_healing_kubernetes.Base.{
  ℕ, suc, ◌-◌, String, ◌≡◌, ◌↔◌, Bool, true, false, ◌&&◌, Option, none, some, List, [], ◌∷◌, ◌++◌,
  map, arith, length, get_elem?, drop, drop_while, ltb, nat_eq, Eq, ◌==◌, string_Eq, if◌then◌else◌,
  Keyed, lookup, insert, delete_if, Time, Duration, stale,
}

abbrev pub default_window_capacity : ℕ
default_window_capacity = 1024

pub record WindowKey : Type 0 where
  pub pod : String
  pub metric : String

abbrev pub key_beq : WindowKey → WindowKey → Bool
key_beq a b = a.pod == b.pod && a.metric == b.metric

pub key_beq_iff : (a b : WindowKey) → (key_beq a b ≡ true) ↔ (a ≡ b)
key_beq_iff a b = (
  ground (arith, string_Eq.equal_iff a.pod b.pod, string_Eq.equal_iff a.metric b.metric),
  ground (arith, string_Eq.equal_iff a.pod b.pod, string_Eq.equal_iff a.metric b.metric),
)

instance abbrev pub key_Eq : Eq WindowKey
key_Eq = record { equal = key_beq; equal_iff = key_beq_iff }

-- What the analyzer uses of `float64` and of `sort.Float64s`. `truncate` is the conversion to an
-- index, `none` where it is negative; `at_least` is `>=`, which is not the negation of `<` on a NaN,
-- and `half` is 0.5.
pub record Floats : Type 1 where
  pub Float : Type 0
  pub zero : Float
  pub add : Float → Float → Float
  pub multiply : Float → Float → Float
  pub divide : Float → Float → Float
  pub subtract : Float → Float → Float
  pub greater : Float → Float → Bool
  pub at_least : Float → Float → Bool
  pub equals : Float → Float → Bool
  pub half : Float
  pub from_nat : ℕ → Float
  pub truncate : Float → Option ℕ
  pub sort : List Float → List Float

module _ (floats : Floats) where
  open floats use {Float}

  pub record Sample : Type 0 where
    pub value : Float
    pub time : Time

  pub record Window : Type 0 where
    pub duration : Duration
    pub samples : List Sample

  unfoldable pub new_window : Duration → Window
  new_window duration = record { duration = duration; samples = [] }

  -- `if len(s) > n { s = s[len(s)-n:] }`
  abbrev pub newest : ℕ → List Sample → List Sample
  newest n samples = if ltb n (length samples) then drop (length samples - n) samples else samples

  -- `Record`: `drop_while` is the loop over `idx`.
  unfoldable pub record_sample : Float → Time → Window → Window
  record_sample value t w = record w {
    samples = newest default_window_capacity (
        drop_while (λ s. stale t w.duration s.time)
          (w.samples ++ record { value = value; time = t } ∷ []));
  }

  abbrev pub count : Window → ℕ
  count w = length w.samples

  -- The loop `for _, s := range samples { sum += s.Value }`.
  abbrev pub add_all : Float → List Sample → Float
  add_all sum [] = sum
  add_all sum (s ∷ rest) = add_all (floats.add sum s.value) rest

  unfoldable pub sum : Window → Float
  sum w = add_all floats.zero w.samples

  unfoldable pub average : Window → Float
  average w = elim w.samples [
    | [] ↦ floats.zero
    | _ ∷ _ ↦ floats.divide (sum w) (floats.from_nat (count w))
  ]

  abbrev pub max_from : Float → List Sample → Float
  max_from max [] = max
  max_from max (s ∷ rest) = max_from (if floats.greater s.value max then s.value else max) rest

  unfoldable pub max : Window → Float
  max w = elim w.samples [ [] ↦ floats.zero | s ∷ rest ↦ max_from s.value rest ]

  -- `samples[len(samples)-1]`
  abbrev pub last : List Sample → Option Sample
  last samples = get_elem? samples (length samples - 1)

  unfoldable pub latest : Window → Option Float
  latest w = elim (last w.samples) [ none ↦ none | some s ↦ some s.value ]

  -- `none` is the panic on an index that is out of range.
  unfoldable pub percentile : Window → Float → Option Float
  percentile w p =
      let vals = map (λ s. s.value) w.samples in
      if nat_eq (count w) 0
      then some floats.zero
      else elim (floats.truncate (
          floats.divide (floats.multiply (floats.from_nat (count w - 1)) p)
            (floats.from_nat 100))) [ none ↦ none | some i ↦ get_elem? (floats.sort vals) i ]

  abbrev pub WindowStore : Type 0
  WindowStore = Keyed WindowKey Window

  unfoldable pub get : Keyed WindowKey Window → String → String → Option Window
  get s pod metric = lookup (record { pod = pod; metric = metric }) s

  -- `Record` of the store.
  unfoldable pub record_in :
      Keyed WindowKey Window → String → String → Float → Time → Duration → Keyed WindowKey Window
  record_in s pod metric value t duration =
      let w : Window = elim (get s pod metric) [ none ↦ new_window duration | some w ↦ w ] in
      insert (record { pod = pod; metric = metric }) (record_sample value t w) s

  unfoldable pub average_of : Keyed WindowKey Window → String → String → Float
  average_of s pod metric = elim (get s pod metric) [ none ↦ floats.zero | some w ↦ average w ]

  unfoldable pub latest_of : Keyed WindowKey Window → String → String → Option Float
  latest_of s pod metric = elim (get s pod metric) [ none ↦ none | some w ↦ latest w ]

  unfoldable pub active_metrics : Keyed WindowKey Window → String → List String
  active_metrics [] pod = []
  active_metrics ((k, w) ∷ rest) pod =
      if k.pod == pod && ltb 0 (count w)
      then k.metric ∷ active_metrics rest pod
      else active_metrics rest pod

  unfoldable pub evict : Keyed WindowKey Window → String → Keyed WindowKey Window
  evict s pod = delete_if (λ k. k.pod == pod) s
