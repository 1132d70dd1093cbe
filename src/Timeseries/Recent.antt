-- ===== src/Timeseries/Recent.antt =====
-- The buffer refines the list of the pushes since the last clear, cut to the newest.
use self_healing_kubernetes.Base.{
  ℕ, ◌+◌, ◌-◌, ◌%◌, ◌<◌, ◌≡◌, refl, ◌∙◌, Option, none, some, List, [], ◌∷◌, ◌++◌, arith, length,
  drop, drop_all, set, ltb, nat_eq, if◌then◌else◌, Bool-cases, inl, inr,
}
use self_healing_kubernetes.Base.Ring.{Follows, Follows-push, Follows-empty, read_wrapped-Follows}
use self_healing_kubernetes.Timeseries.{Buffer, new_buffer, push, snapshot, clear}

module _ (A : Type 0) where
  pub data Call : Type 0 where
    pushes : A → Call
    clears : Call

  -- The calls in order; `none` if one of them panics.
  unfoldable pub run : Buffer A → List Call → Option (Buffer A)
  run b [] = some b
  run b (pushes x ∷ calls) = elim (push A x b) [ none ↦ none | some b' ↦ run b' calls ]
  run b (clears ∷ calls) = run (clear A b) calls

  -- The reference: the items pushed since the last clear.
  abbrev pub since_clear : List A → List Call → List A
  since_clear log [] = log
  since_clear log (pushes x ∷ calls) = since_clear (log ++ x ∷ []) calls
  since_clear log (clears ∷ calls) = since_clear [] calls

  abbrev Holds : Buffer A → List A → Type 0
  Holds b log = Follows b.items b.capacity b.head b.size log

  -- The buffer after a push.
  abbrev pushed : A → Buffer A → Buffer A
  pushed item b = record b {
    items = set b.items b.head item;
    head = (b.head + 1) % b.capacity;
    size = if ltb b.size b.capacity then b.size + 1 else b.size;
  }

  push_fits : (x : A) (b : Buffer A) (log : List A) → Holds b log → push A x b ≡ some (pushed x b)
  unfolding push
  push_fits x b log f = ground (arith, f)

  Holds-clear : (b : Buffer A) (log : List A) → Holds b log → Holds (clear A b) []
  unfolding clear
  Holds-clear b log f = record {
    length_array = f.length_array;
    head_in = omega (arith, f.head_in);
    size_eq = omega arith;
    unwrapped = λ h. refl;
    at = λ k h. absurd (omega (arith, h));
  }

  run-Holds :
      (b : Buffer A) (log : List A) (calls : List Call)
      → Holds b log
      → (b' : Buffer A) × (run b calls ≡ some b')
        × Holds b' (since_clear log calls)
        × (b'.capacity ≡ b.capacity)
  unfolding run
  run-Holds b log [] f = (b, refl, f, refl)
  run-Holds b log (pushes x ∷ calls) f =
      let (b', e, f', same) =
        run-Holds (pushed x b) (log ++ x ∷ []) calls
          (Follows-push b.items b.capacity b.head b.size (pushed x b).size log x f refl) in
      (b', ground (arith, push_fits x b log f, e), f', same)
  run-Holds b log (clears ∷ calls) f =
      let (b', e, f', same) = run-Holds (clear A b) [] calls (Holds-clear b log f) in
      (b', e, f', same ∙ (unfold clear in refl))

  snapshot-Holds :
      (b : Buffer A) (log : List A)
      → Holds b log
      → snapshot A b ≡ some (drop (length log - b.capacity) log)
  unfolding snapshot
  snapshot-Holds b log f = elim (Bool-cases (nat_eq b.size 0)) [
    | inl empty ↦ rw (empty, drop_all log (length log - b.capacity) (ground (arith, f)))
    | inr more ↦ rw more (read_wrapped-Follows b.items b.capacity b.head b.size log f)
  ]

  -- From a new buffer of a capacity that is not 0, no sequence of pushes and clears panics, and the
  -- snapshot after it is the list of the items pushed since the last clear, oldest first, cut to the
  -- newest items that the capacity admits.
  pub snapshot-run :
      (fill : A) (capacity : ℕ) (calls : List Call)
      → 0 < capacity
      → (b : Buffer A) × (run (new_buffer A fill capacity) calls ≡ some b)
        × (snapshot A b
            ≡ some (drop (length (since_clear [] calls) - capacity) (since_clear [] calls)))
  unfolding new_buffer
  snapshot-run fill capacity calls pos =
      let (b, e, f, same) =
        run-Holds (new_buffer A fill capacity) [] calls (Follows-empty capacity fill pos) in
      (b, e, rw same at (snapshot-Holds b (since_clear [] calls) f))
