-- ===== src/Analyzer/Tests.antt =====
-- The analyzer's windows and cooldowns on concrete data; the samples are numbers.
use self_healing_kubernetes.Base.{
  ℕ, ◌+◌, ◌&&◌, ◌-◌, ◌*◌, ◌/◌, ◌≡◌, some, List, [], ◌∷◌, arith, ltb, leb, nat_eq, minute,
}
use self_healing_kubernetes.Analyzer.Window as Window
use self_healing_kubernetes.Analyzer.Correlate as Correlate
use self_healing_kubernetes.Analyzer.Cooldown as Cooldown
use self_healing_kubernetes.Analyzer.Cooldown.{key_Eq}
use self_healing_kubernetes.Analyzer.Cooldown.Log as Log

abbrev numbers : Window.Floats
numbers = record {
  Float = ℕ;
  zero = 0;
  add = ◌+◌;
  multiply = ◌*◌;
  divide = ◌/◌;
  subtract = ◌-◌;
  greater = λ a b. ltb b a;
  at_least = λ a b. leb b a;
  equals = nat_eq;
  half = 0;
  from_nat = λ n. n;
  truncate = some;
  sort = λ xs. xs;
}

-- Three samples in ten units of time.
abbrev window : Window.Window numbers
window = record {
  duration = 10;
  samples =
      record { value = 4; time = 100 }
      ∷ record { value = 7; time = 105 }
      ∷ record { value = 5; time = 112 }
      ∷ [];
}

abbrev limits : Cooldown.CooldownPolicy
limits = record { duration = minute; max_per_hour = 1 }

abbrev restart : Cooldown.CooldownKey
restart = record { pod = "web"; action_type = "restart_pod" }

abbrev log : List Log.Action
log =
    record { key = restart; at = minute }
    ∷ record { key = record { pod = "api"; action_type = "restart_pod" }; at = 2 * minute }
    ∷ record { key = restart; at = 3 * minute }
    ∷ []

allow-record_all_example :
    Cooldown.allow (Log.record_all [] log) "web" "restart_pod" limits (4 * minute)
    ≡ Log.permitted (Log.times_of restart [] log) limits (4 * minute)
allow-record_all_example =
    Log.allow-record_all log "web" "restart_pod" limits (4 * minute)
      (omega arith, (omega arith, (omega arith, omega arith)))

allow-remaining_cooldown_example :
    Cooldown.allow (Log.record_all [] log) "web" "restart_pod" limits (5 * minute) ≡ (
      leb
        (4 * minute
          + Cooldown.remaining_cooldown
              (Log.record_all [] log)
              "web"
              "restart_pod"
              limits
              (4 * minute))
        (5 * minute)
      && Log.has_room (Log.times_of restart [] log) limits (5 * minute))
allow-remaining_cooldown_example =
    Log.allow-remaining_cooldown log "web" "restart_pod" limits (4 * minute) (5 * minute)
      (omega arith, (omega arith, (omega arith, omega arith))) (omega arith)

abbrev correlations : List (Correlate.Correlation numbers)
correlations =
    record { signals = "io_wait" ∷ "latency" ∷ []; boost = 15; interpretation = "disk" }
    ∷ record { signals = "latency" ∷ "oom" ∷ []; boost = 20; interpretation = "memory" }
    ∷ []
