-- ===== src/Analyzer/Confidence/Range.antt =====
-- Every confidence lies in the unit interval, whatever the rules and the correlations add up to.
use self_healing_kubernetes.Base.{false, ◌≡◌, arith}
use self_healing_kubernetes.Analyzer.Window.{Floats}
use self_healing_kubernetes.Analyzer.Confidence.{ScoreInput, score, clamp, raise, lower}

-- What the order of `float64` gives, also on a NaN: no number is above itself, and 0 is not above 1.
pub record UnitOrder (floats : Floats) : Type 0 where
  pub irreflexive : (x : floats.Float) → floats.greater x x ≡ false
  pub zero_one : floats.greater floats.zero (floats.from_nat 1) ≡ false

module _ (floats : Floats) where
  open floats use {Float}

  -- Neither below 0 nor above 1.
  abbrev pub InUnit : Float → Type 0
  InUnit x = (floats.greater floats.zero x ≡ false) × (floats.greater x (floats.from_nat 1) ≡ false)

  InUnit-lower :
      (order : UnitOrder floats) (x : Float)
      → floats.greater floats.zero x ≡ false
      → InUnit (lower floats (floats.from_nat 1) x)
  InUnit-lower order x h =
      (ground (arith, order.zero_one, h), ground (arith, order.irreflexive (floats.from_nat 1)))

  raise-lem :
      (order : UnitOrder floats) (x : Float)
      → floats.greater floats.zero (raise floats floats.zero x) ≡ false
  raise-lem order x = ground (arith, order.irreflexive floats.zero)

  pub score-InUnit :
      (order : UnitOrder floats) (input : ScoreInput floats) → InUnit (score floats input)
  unfolding score
  score-InUnit order input = InUnit-lower order _ (raise-lem order _)

  pub clamp-InUnit :
      (order : UnitOrder floats) (x : Float)
      → InUnit (clamp floats x floats.zero (floats.from_nat 1))
  unfolding clamp
  clamp-InUnit order x = (
    ground (arith, order.irreflexive floats.zero, order.zero_one),
    ground (arith, order.irreflexive (floats.from_nat 1), order.zero_one),
  )
