-- ===== src/Analyzer/Engine.antt =====
-- internal/analyzer/engine.go: the pipeline of one sample. Logs, metrics and the locks are left
-- out. `has_publisher` is `publisher != nil`, and `published` holds the calls of `PublishAnomaly` in
-- order, with the event in place of its JSON; what the publisher answers is only logged.
pub mod Soundness
pub mod Publishing
pub mod Once
mod Tests
use self_healing_kubernetes.Base.{
  ℕ, ◌+◌, ◌*◌, String, Bool, true, false, not, ◌&&◌, ◌||◌, Option, none, some, List, [], ◌∷◌, ◌++◌,
  map, length, ltb, ◌==◌, string_Eq, if◌then◌else◌, Keyed, lookup, Time, Duration, second, is_zero,
}
use self_healing_kubernetes.Analyzer.Window as Window
use self_healing_kubernetes.Analyzer.Window.{Floats, WindowKey}
use self_healing_kubernetes.Analyzer.Cooldown as Cooldown
use self_healing_kubernetes.Analyzer.Cooldown.{
  CooldownKey, CooldownEntry, CooldownPolicy, default_cooldowns,
}
use self_healing_kubernetes.Analyzer.Correlate.{
  Correlation, ActiveSignalSet, build_active_set, evaluate_correlations,
}
use self_healing_kubernetes.Analyzer.Rules.{Rule, RulesConfig, breaches}
use self_healing_kubernetes.Analyzer.Confidence as Confidence
use self_healing_kubernetes.Analyzer.Confidence.{Decision, Thresholds, score, decide, clamp}

unfoldable pub cooldown_policy_for : String → CooldownPolicy
cooldown_policy_for action = elim (lookup action default_cooldowns) [
  | some p ↦ p
  | none ↦ record { duration = 60 * second; max_per_hour = 3 }
]

-- `time.UnixMilli` of a timestamp that is not negative; the zero time is in the year 1.
abbrev pub unix_milli : ℕ → Time
unix_milli ms = (62_135_596_800_000 + ms) * 1_000_000

abbrev pub is_log_only : Decision → Bool
is_log_only Decision.suppress = false
is_log_only Decision.log_only = true
is_log_only Decision.take_action = false

abbrev pub is_suppress : Decision → Bool
is_suppress Decision.suppress = true
is_suppress Decision.log_only = false
is_suppress Decision.take_action = false

module _ (floats : Floats) where
  open floats use {Float}

  pub record AnomalyEvent : Type 0 where
    pub id : String
    pub namespace : String
    pub pod : String
    pub deployment : String
    pub container : String
    pub metric : String
    pub confidence : Float
    pub active_signals : List String
    pub suggested_cause : String
    pub suggested_action : String
    pub metric_value : Float
    pub threshold : Float
    pub window : String
    pub dry_run : Bool
    pub detected_at : Time

  pub record SignalEvent : Type 0 where
    pub node : String
    pub pod : String
    pub namespace : String
    pub deployment : String
    pub container : String
    pub metric : String
    pub value : Float
    pub timestamp : ℕ

  pub record Engine : Type 0 where
    pub rules : List (Rule floats)
    pub cfg : RulesConfig floats
    pub windows : Keyed WindowKey (Window.Window floats)
    pub cooldowns : Keyed CooldownKey CooldownEntry
    pub has_publisher : Bool
    pub published : List (String × AnomalyEvent)
    pub dry_run : Bool
    pub thresholds : Thresholds floats

  unfoldable pub new_engine :
      List (Rule floats) → RulesConfig floats → (has_publisher dry_run : Bool) → Engine
  new_engine rules cfg has_publisher dry_run = record {
    rules = rules;
    cfg = cfg;
    windows = [];
    cooldowns = [];
    has_publisher = has_publisher;
    published = [];
    dry_run = dry_run;
    thresholds = record {
      suppress_below = cfg.suppress;
      log_only_below = cfg.log_only;
      action_from = cfg.take_action;
    };
  }

  -- What the engine uses of the standard library. `names` lists the keys of a map in some order;
  -- `marshals` tells whether `json.Marshal` succeeds.
  pub record Services (D : Type 0) : Type 0 where
    pub decode : D → Option SignalEvent
    pub marshals : AnomalyEvent → Bool
    pub trim_space : String → String
    pub parse_duration : String → Option Duration
    pub names : ActiveSignalSet → List String

  pub record RuleHit : Type 0 where
    pub rule : Rule floats
    pub value : Float

  module _ {D : Type 0} (services : Services D) where
    unfoldable pub parse_window_duration : String → Option Duration
    parse_window_duration s =
        if services.trim_space s == ""
        then some (30 * second)
        else services.parse_duration (services.trim_space s)

    -- Step 1, the loop over the rules.
    unfoldable pub record_all :
        List (Rule floats)
        → SignalEvent
        → Time
        → Keyed WindowKey (Window.Window floats)
        → Keyed WindowKey (Window.Window floats)
    record_all [] sig t windows = windows
    record_all (rule ∷ rules) sig t windows = record_all rules sig t (
        if rule.metric == sig.metric
        then elim (parse_window_duration rule.window) [
          | none ↦ windows
          | some dur ↦ Window.record_in floats windows sig.pod sig.metric sig.value t dur
        ]
        else windows)

    -- Step 2, the loop that collects the hits.
    unfoldable pub hits_of :
        List (Rule floats) → SignalEvent → Keyed WindowKey (Window.Window floats) → List RuleHit
    hits_of [] sig windows = []
    hits_of (rule ∷ rules) sig windows =
        let rest = hits_of rules sig windows in
        if rule.metric == sig.metric
        then elim (Window.get floats windows sig.pod sig.metric) [
          | none ↦ rest
          | some w ↦
              if breaches floats (Window.average floats w) rule.condition
              then record { rule = rule; value = Window.average floats w } ∷ rest
              else rest
        ]
        else rest

    -- The score of a hit, with the extra boost where several rules are triggered.
    unfoldable pub score_of :
        Engine → (active : ActiveSignalSet) (triggered : List String) → Float → RuleHit → Float
    score_of e active triggered corr_boost hit =
        let base : Float = score floats (record {
          base_confidence = hit.rule.confidence_base;
          active_signals = services.names active;
          correlations = e.cfg.correlations;
          single_signal_penalty = e.cfg.single_signal_penalty;
        }) in
        if floats.greater corr_boost floats.zero && ltb 1 (length triggered)
        then clamp floats (floats.add base (floats.multiply corr_boost floats.half)) floats.zero
            (floats.from_nat 1)
        else base

    abbrev pub event_of :
        Engine → SignalEvent → ActiveSignalSet → Time → Float → RuleHit → AnomalyEvent
    event_of e sig active now confidence hit = record {
      id = hit.rule.id;
      namespace = sig.namespace;
      pod = sig.pod;
      deployment = sig.deployment;
      container = sig.container;
      metric = sig.metric;
      confidence = confidence;
      active_signals = services.names active;
      suggested_cause = hit.rule.suggested_cause;
      suggested_action = hit.rule.suggested_action;
      metric_value = hit.value;
      threshold = hit.rule.condition.value;
      window = hit.rule.window;
      dry_run = e.dry_run || is_log_only (decide floats confidence e.thresholds);
      detected_at = now;
    }

    -- Step 6: the cooldown is recorded, then the event goes out.
    unfoldable pub emit : AnomalyEvent → Time → Engine → Engine
    emit event now e = record e {
      cooldowns = Cooldown.record_action e.cooldowns event.pod event.suggested_action now;
      published =
          if (e.has_publisher && not e.dry_run) && services.marshals event
          then e.published ++ (event.namespace, event) ∷ []
          else e.published;
    }

    -- The body of the loop over the hits.
    unfoldable pub handle_hit :
        SignalEvent
        → (active : ActiveSignalSet) (triggered : List String) → Float
        → Time
        → RuleHit
        → Engine
        → Engine
    handle_hit sig active triggered corr_boost now hit e =
        let confidence = score_of e active triggered corr_boost hit in
        let action = hit.rule.suggested_action in
        if is_suppress (decide floats confidence e.thresholds)
        then e
        else if not (Cooldown.allow e.cooldowns sig.pod action (cooldown_policy_for action) now)
        then e
        else emit (event_of e sig active now confidence hit) now e

    unfoldable pub handle_hits :
        SignalEvent
        → (active : ActiveSignalSet) (triggered : List String) → Float
        → Time
        → List RuleHit
        → Engine
        → Engine
    handle_hits sig active triggered corr_boost now [] e = e
    handle_hits sig active triggered corr_boost now (hit ∷ hits) e =
        handle_hits sig active triggered corr_boost now hits
          (handle_hit sig active triggered corr_boost now hit e)

    abbrev pub triggered_ids : List RuleHit → List String
    triggered_ids hits = map (λ h. h.rule.id) hits

    -- The steps behind the decoding. `received` and `now` are the clock where the code reads it.
    unfoldable pub evaluate : SignalEvent → (received now : Time) → Engine → Engine
    evaluate sig received now e =
        let t : Time =
          if is_zero (unix_milli sig.timestamp) then received else unix_milli sig.timestamp in
        let e' : Engine = record e { windows = record_all e.rules sig t e.windows } in
        let hits = hits_of e.rules sig e'.windows in
        let active = build_active_set (triggered_ids hits) in
        let corr_boost = evaluate_correlations floats active e.cfg.correlations in
        handle_hits sig active (triggered_ids hits) corr_boost now hits e'

    -- `none` is the error of a payload that does not decode; the engine is then as before.
    unfoldable pub process_signal : D → (received now : Time) → Engine → Option Engine
    process_signal payload received now e = elim (services.decode payload) [
      | none ↦ none
      | some sig ↦ some (evaluate sig received now e)
    ]
