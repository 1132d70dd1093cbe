-- ===== src/Analyzer/Confidence.antt =====
-- internal/analyzer/confidence.go: the confidence of an anomaly and the decision on it.
pub mod Range
use self_healing_kubernetes.Base.{
  ℕ, String, Bool, true, false, List, [], ◌∷◌, length, all, nat_eq, if◌then◌else◌,
}
use self_healing_kubernetes.Analyzer.Window.{Floats}
use self_healing_kubernetes.Analyzer.Correlate.{Correlation, has, add_signals}

pub data Decision : Type 0 where
  suppress log_only take_action : Decision

unfoldable pub all_match : (active required : List String) → Bool
all_match active required = all (has (add_signals [] active)) required

module _ (floats : Floats) where
  open floats use {Float}

  pub record ScoreInput : Type 0 where
    pub base_confidence : Float
    pub active_signals : List String
    pub correlations : List (Correlation floats)
    pub single_signal_penalty : Float

  pub record Thresholds : Type 0 where
    pub suppress_below : Float
    pub log_only_below : Float
    pub action_from : Float

  -- The loop over the correlations.
  unfoldable pub add_matches : List String → Float → List (Correlation floats) → Float
  add_matches active confidence [] = confidence
  add_matches active confidence (corr ∷ rest) =
      add_matches active
        (if all_match active corr.signals then floats.add confidence corr.boost else confidence)
        rest

  -- `if v < lo { v = lo }`
  abbrev pub raise : (lo v : Float) → Float
  raise lo v = if floats.greater lo v then lo else v

  -- `if v > hi { v = hi }`
  abbrev pub lower : (hi v : Float) → Float
  lower hi v = if floats.greater v hi then hi else v

  unfoldable pub score : ScoreInput → Float
  score input =
      let base : Float =
        if nat_eq (length input.active_signals) 1
        then floats.add input.base_confidence input.single_signal_penalty
        else input.base_confidence in
      lower (floats.from_nat 1)
        (raise floats.zero (add_matches input.active_signals base input.correlations))

  unfoldable pub decide : Float → Thresholds → Decision
  decide confidence t =
      if floats.greater t.suppress_below confidence
      then suppress
      else if floats.greater t.action_from confidence
      then log_only
      else take_action

  -- `clamp` of engine.go
  unfoldable pub clamp : (v lo hi : Float) → Float
  clamp v lo hi = if floats.greater lo v then lo else if floats.greater v hi then hi else v
