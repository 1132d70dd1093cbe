-- ===== src/Analyzer/Window/Latest.antt =====
-- The bound on the samples of a window, and its newest sample.
use self_healing_kubernetes.Base.{
  ℕ, zero, suc, ◌-◌, ◌≤◌, ◌<◌, ◌≡◌, refl, ◌∙◌, ap, Bool, false, Option, some, none, List, [], ◌∷◌,
  ◌++◌, arith, length, length-drop, get_elem?, drop, drop_while, Time, stale,
}
use self_healing_kubernetes.Analyzer.Window.{
  Floats, Sample, Window, default_window_capacity, newest, record_sample, latest, last, count,
}

module _ (floats : Floats) where
  open floats use {Float}

  -- A list that ends in the sample.
  abbrev EndsIn : Sample floats → List (Sample floats) → Type 0
  EndsIn s [] = ⊥
  EndsIn s (s' ∷ []) = s' ≡ s
  EndsIn s (_ ∷ (s' ∷ rest)) = EndsIn s (s' ∷ rest)

  EndsIn-append :
      (s : Sample floats) (samples : List (Sample floats)) → EndsIn s (samples ++ s ∷ [])
  EndsIn-append s [] = refl
  EndsIn-append s (s' ∷ []) = refl
  EndsIn-append s (_ ∷ (s' ∷ rest)) = EndsIn-append s (s' ∷ rest)

  EndsIn-drop_while :
      (p : Sample floats → Bool) (s : Sample floats) (samples : List (Sample floats))
      → p s ≡ false
      → EndsIn s samples
      → EndsIn s (drop_while p samples)
  EndsIn-drop_while p s [] h e = e
  EndsIn-drop_while p s (s' ∷ []) h e = rw (e, h) refl
  EndsIn-drop_while p s (s1 ∷ (s' ∷ rest)) h e =
      ground (arith, EndsIn-drop_while p s (s' ∷ rest) h e)

  EndsIn-drop :
      (n : ℕ) (s : Sample floats) (samples : List (Sample floats))
      → n < length samples
      → EndsIn s samples
      → EndsIn s (drop n samples)
  EndsIn-drop zero s samples h e = e
  EndsIn-drop (suc n) s [] h e = e
  EndsIn-drop (suc n) s (s' ∷ []) h e = absurd (omega (arith, h))
  EndsIn-drop (suc n) s (_ ∷ (s' ∷ rest)) h e = EndsIn-drop n s (s' ∷ rest) (omega (arith, h)) e

  EndsIn-newest :
      (n : ℕ) (s : Sample floats) (samples : List (Sample floats))
      → 0 < n
      → EndsIn s samples
      → EndsIn s (newest floats n samples)
  EndsIn-newest n s samples pos e = ground (arith, EndsIn-drop (length samples - n) s samples)

  last-cons :
      (s'' s' : Sample floats) (rest : List (Sample floats))
      → last floats (s'' ∷ (s' ∷ rest)) ≡ last floats (s' ∷ rest)
  last-cons s'' s' rest =
      ap (get_elem? (s'' ∷ (s' ∷ rest))) {x = suc (suc (length rest)) - 1} {y = suc (length rest)}
        (omega arith)
      ∙ ap (get_elem? (s' ∷ rest)) {x = length rest} {y = suc (length rest) - 1} (omega arith)

  last-EndsIn :
      (s : Sample floats) (samples : List (Sample floats))
      → EndsIn s samples
      → last floats samples ≡ some s
  last-EndsIn s [] e = elim e [ ]
  last-EndsIn s (s' ∷ []) e = ap some e
  last-EndsIn s (s'' ∷ (s' ∷ rest)) e = last-cons s'' s' rest ∙ last-EndsIn s (s' ∷ rest) e

  latest-EndsIn :
      (s : Sample floats) (w : Window floats) → EndsIn s w.samples → latest floats w ≡ some s.value
  unfolding latest
  latest-EndsIn s w e =
      ap
        (λ (o : Option (Sample floats)). elim o as (λ _. Option Float) [
          | none ↦ none
          | some s' ↦ some s'.value
        ])
        (last-EndsIn s w.samples e)

  length-newest : (n : ℕ) (samples : List (Sample floats)) → length (newest floats n samples) ≤ n
  length-newest n samples = ground (arith, length-drop (length samples - n) samples)

  -- Whatever the order of the times, after recording a value the window's latest value is that value
  -- and the window holds at most 1024 samples.
  pub latest-record_sample :
      (value : Float) (t : Time) (w : Window floats)
      → (latest floats (record_sample floats value t w) ≡ some value)
        × (count floats (record_sample floats value t w) ≤ 1024)
  unfolding record_sample
  latest-record_sample value t w =
      let s : Sample floats = record { value = value; time = t } in
      let kept = drop_while (λ s. stale t w.duration s.time) (w.samples ++ s ∷ []) in
      (
        latest-EndsIn s (record_sample floats value t w) (
            EndsIn-newest default_window_capacity s kept (omega arith) (
              EndsIn-drop_while (λ s. stale t w.duration s.time) s (w.samples ++ s ∷ [])
                (ground arith) (EndsIn-append s w.samples))),
        length-newest default_window_capacity kept,
      )
