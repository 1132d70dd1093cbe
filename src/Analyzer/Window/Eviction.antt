-- ===== src/Analyzer/Window/Eviction.antt =====
-- A window holds the newest of the samples that are in it.
use self_healing_kubernetes.Base.{
  ◌≤◌, ◌≡◌, refl, Bool, true, not, List, [], ◌∷◌, ◌++◌, arith, drop_while, keep, All, All-append,
  keep-eq_self, Time, Duration, stale,
}
use self_healing_kubernetes.Analyzer.Window.{
  Floats, Sample, Window, default_window_capacity, newest, record_sample,
}

module _ (floats : Floats) where
  open floats use {Float}

  -- The samples are in the order of their times.
  abbrev pub IsOrdered : List (Sample floats) → Type 0
  IsOrdered [] = Unit
  IsOrdered (s ∷ rest) = All (λ s'. s.time ≤ s'.time) rest × IsOrdered rest

  abbrev pub in_window : Time → Duration → Sample floats → Bool
  in_window t d s = not (stale t d s.time)

  all_in_window :
      (t : Time) (d : Duration) (s : Sample floats) (rest : List (Sample floats))
      → in_window t d s ≡ true
      → All (λ s'. s.time ≤ s'.time) rest
      → All (λ s'. in_window t d s' ≡ true) rest
  all_in_window t d s [] h all = tt
  all_in_window t d s (s' ∷ rest) h all = (ground (arith, all.0), all_in_window t d s rest h all.1)

  keep-in_window :
      (t : Time) (d : Duration) (s : Sample floats) (rest : List (Sample floats))
      → in_window t d s ≡ true
      → All (λ s'. s.time ≤ s'.time) rest
      → keep (in_window t d) rest ≡ rest
  keep-in_window t d s rest h all =
      keep-eq_self (in_window t d) rest (all_in_window t d s rest h all)

  drop_while-eq-keep :
      (t : Time) (d : Duration) (samples : List (Sample floats))
      → IsOrdered samples
      → drop_while (λ s. stale t d s.time) samples ≡ keep (in_window t d) samples
  drop_while-eq-keep t d [] ordered = refl
  drop_while-eq-keep t d (s ∷ rest) ordered =
      ground (arith, drop_while-eq-keep t d rest ordered.1, keep-in_window t d s rest)

  IsOrdered-append :
      (samples : List (Sample floats)) (s : Sample floats)
      → IsOrdered samples
      → All (λ s'. s'.time ≤ s.time) samples
      → IsOrdered (samples ++ s ∷ [])
  IsOrdered-append [] s ordered all = (tt, tt)
  IsOrdered-append (s' ∷ rest) s ordered all =
      (All-append _ rest (s ∷ []) ordered.0 (all.0, tt), IsOrdered-append rest s ordered.1 all.1)

  -- On a window whose samples are in the order of their times, none later than `t`, recording a
  -- sample at `t` leaves exactly the samples that are not older than the window's duration at `t`,
  -- the new one included, cut to the newest 1024.
  record_sample-window :
      (value : Float) (t : Time) (w : Window floats)
      → IsOrdered w.samples
      → All (λ s. s.time ≤ t) w.samples
      → (record_sample floats value t w).samples
        ≡ newest floats default_window_capacity
            (keep (in_window t w.duration) (w.samples ++ record { value = value; time = t } ∷ []))
  unfolding record_sample
  record_sample-window value t w ordered past = rw (
      drop_while-eq-keep t w.duration (w.samples ++ record { value = value; time = t } ∷ [])
        (IsOrdered-append w.samples (record { value = value; time = t }) ordered past))
