-- ===== src/Analyzer/Samples.antt =====
-- A number type for the tests in place of `float64`: hundredths, cut at 0.
use self_healing_kubernetes.Base.{◌+◌, ◌-◌, ◌*◌, ◌/◌, ℕ, some, ltb, leb, nat_eq}
use self_healing_kubernetes.Analyzer.Window as Window

abbrev pub hundredths : Window.Floats
hundredths = record {
  Float = ℕ;
  zero = 0;
  add = ◌+◌;
  multiply = λ a b. a * b / 100;
  divide = λ a b. 100 * a / b;
  subtract = ◌-◌;
  greater = λ a b. ltb b a;
  at_least = λ a b. leb b a;
  equals = nat_eq;
  half = 50;
  from_nat = λ n. 100 * n;
  truncate = λ x. some (x / 100);
  sort = λ xs. xs;
}
