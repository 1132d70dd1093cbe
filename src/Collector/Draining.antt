-- ===== src/Collector/Draining.antt =====
-- pkg/collector: what the drain of a ring buffer gives, whatever the resolver answers.
use self_healing_kubernetes.Base.{
  ℕ, not, ◌≡◌, refl, inl, inr, true, false, List, [], ◌∷◌, map, length, ltb, keep, Bool-cases,
  arith,
}
use self_healing_kubernetes.Base.Bytes.{Bytes}
use self_healing_kubernetes.Collector.{drain}

module _ {S E : Type 0} (raw_size : ℕ) (event_of : Bytes → S → S × E) (bytes : Bytes) where
  drain-short :
      (records : List Bytes) (s : S)
      → ltb (length bytes) raw_size ≡ true
      → drain raw_size event_of (bytes ∷ records) s ≡ drain raw_size event_of records s
  unfolding drain
  drain-short records s h = ground (arith, h)

  drain-whole :
      (records : List Bytes) (s : S)
      → ltb (length bytes) raw_size ≡ false
      → (drain raw_size event_of (bytes ∷ records) s).1
        ≡ (event_of bytes s).1 ∷ (drain raw_size event_of records (event_of bytes s).0).1
  unfolding drain
  drain-whole records s h = ground (arith, h)

module _ {S E V : Type 0} (view : E → V) (view_of : Bytes → V) where
  -- What an event shows that comes from its record alone is shown, in order, for the records that are
  -- long enough.
  pub drain-map :
      (raw_size : ℕ) (event_of : Bytes → S → S × E)
      → ((bytes : Bytes) (s : S) → view (event_of bytes s).1 ≡ view_of bytes)
      → (records : List Bytes) (s : S)
      → map view (drain raw_size event_of records s).1
        ≡ map view_of (keep (λ bytes. not (ltb (length bytes) raw_size)) records)
  unfolding drain
  drain-map raw_size event_of h [] s = refl
  drain-map raw_size event_of h (bytes ∷ records) s =
      elim (Bool-cases (ltb (length bytes) raw_size)) [
        | inl short ↦
            rw (drain-short raw_size event_of bytes records s short, short)
              (drain-map raw_size event_of h records s)
        | inr whole ↦
            rw (drain-whole raw_size event_of bytes records s whole, whole)
              (cc (h bytes s, drain-map raw_size event_of h records (event_of bytes s).0))
      ]
