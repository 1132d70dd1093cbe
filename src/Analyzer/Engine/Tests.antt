-- ===== src/Analyzer/Engine/Tests.antt =====
-- The engine on one sample that two rules answer; `float64` is a number of hundredths.
use self_healing_kubernetes.Base.{
  ℕ, ◌+◌, ◌≤◌, ◌≡◌, refl, ◌⊎◌, String, true, false, some, List, [], ◌∷◌, ◌++◌, map, arith, length,
  All, lookup, insert, if◌then◌else◌, minute,
}
use self_healing_kubernetes.Analyzer.Window as Window
use self_healing_kubernetes.Analyzer.Samples.{hundredths}
use self_healing_kubernetes.Analyzer.Cooldown as Cooldown
use self_healing_kubernetes.Analyzer.Correlate.{
  add_signals, build_active_set, evaluate_correlations, add_boosts,
}
use self_healing_kubernetes.Analyzer.Rules.{Rule, breaches}
use self_healing_kubernetes.Analyzer.Confidence.{score, decide, add_matches, clamp}
use self_healing_kubernetes.Analyzer.Confidence.Range.{UnitOrder}
use self_healing_kubernetes.Analyzer.Engine as Engine
use self_healing_kubernetes.Analyzer.Engine.Soundness as Soundness
use self_healing_kubernetes.Analyzer.Engine.Publishing as Publishing
use self_healing_kubernetes.Analyzer.Engine.Once as Once

UnitOrder-hundredths : UnitOrder hundredths
UnitOrder-hundredths = record { irreflexive = λ x. ground arith; zero_one = refl }

abbrev rule : String → ℕ → Rule hundredths
rule id base = record {
  id = id;
  description = "";
  metric = "cpu";
  condition = record { operator = ">"; value = 80 };
  window = "";
  confidence_base = base;
  min_signals = 1;
  suggested_cause = "";
  suggested_action = "restart_pod";
  enabled = true;
}

abbrev rules : List (Rule hundredths)
rules = rule "cpu_high" 90 ∷ rule "cpu_hot" 80 ∷ []

abbrev engine : Engine.Engine hundredths
engine =
    Engine.new_engine hundredths rules
      (record {
        rules = rules;
        correlations = [];
        single_signal_penalty = 0;
        suppress = 60;
        log_only = 60;
        take_action = 75;
      })
      true false

abbrev services : Engine.Services hundredths (Engine.SignalEvent hundredths)
services = record {
  decode = some;
  marshals = λ event. true;
  trim_space = λ s. s;
  parse_duration = λ s. some minute;
  names = λ active. map (λ kv. kv.0) active;
}

abbrev sample : Engine.SignalEvent hundredths
sample = record {
  node = "n1";
  pod = "web";
  namespace = "shop";
  deployment = "web";
  container = "web";
  metric = "cpu";
  value = 95;
  timestamp = 0;
}

process_signal-IsSound_example :
    (e' : Engine.Engine hundredths) × (added : List (String × Engine.AnomalyEvent hundredths))
    × (Engine.process_signal hundredths services sample 5 7 engine ≡ some e')
    × (e'.published ≡ engine.published ++ added)
    × All (Soundness.IsSound hundredths services engine.rules engine.thresholds sample) added
    × ((added ≡ []) ⊎ ((engine.dry_run ≡ false) × (engine.has_publisher ≡ true)))
process_signal-IsSound_example =
    Publishing.process_signal-IsSound hundredths services UnitOrder-hundredths sample sample 5 7
      engine refl

process_signal-once_example :
    (e' : Engine.Engine hundredths) × (Engine.process_signal hundredths services sample 5 7 engine
      ≡ some e')
    × (Once.suggesting hundredths services "restart_pod" e'.published
        ≤ Once.suggesting hundredths services "restart_pod" engine.published
          + (if Cooldown.allow engine.cooldowns "web" "restart_pod"
                (Engine.cooldown_policy_for "restart_pod")
                7
              then 1
              else 0))
process_signal-once_example =
    Once.process_signal-once hundredths services sample sample 5 7 "restart_pod" engine refl

-- The two rules breach, and one event goes out.
one_event :
    (e' : Engine.Engine hundredths) × (Engine.process_signal hundredths services sample 5 7 engine
      ≡ some e')
    × (length e'.published ≡ 1)
unfolding Engine.process_signal Engine.evaluate Engine.new_engine Engine.handle_hits Engine.hits_of
    Window.get lookup insert Engine.record_all Engine.parse_window_duration Window.record_in
    breaches Window.average Window.record_sample Window.new_window Window.sum Engine.handle_hit
    decide Engine.score_of evaluate_correlations add_matches clamp score Cooldown.acted
    Cooldown.allow Cooldown.permits Cooldown.record_action add_boosts add_signals build_active_set
    Engine.cooldown_policy_for Engine.emit
one_event = (Engine.evaluate hundredths services sample 5 7 engine, refl, refl)
