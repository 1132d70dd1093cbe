-- ===== src/Collector/Syscall/Ranking.antt =====
-- pkg/collector/syscall.go: the ranking of the system calls of a container.
use self_healing_kubernetes.Base.{
  ℕ, zero, suc, ◌+◌, ◌≤◌, ◌≡◌, refl, ap, sym, inl, inr, List, [], ◌∷◌, map, take, drop, length, All,
  arith, ltb, string_Eq, Bool-cases,
}
use self_healing_kubernetes.Collector.Polling.{Floats}
use self_healing_kubernetes.Collector.Syscall.{SyscallSummary, stamp_ranks, top_five}

-- `n` numbers from `first` on.
abbrev pub numbers : (first n : ℕ) → List ℕ
numbers first zero = []
numbers first (suc n) = first ∷ numbers (first + 1) n

module _ (floats : Floats) where
  -- No count is above one before it.
  abbrev pub Falling : List (SyscallSummary floats) → Type 0
  Falling [] = Unit
  Falling (s ∷ entries) = All (λ t. t.count ≤ s.count) entries × Falling entries

  stamp_ranks-numbers :
      (i : ℕ) (entries : List (SyscallSummary floats))
      → map (λ s. s.rank) (stamp_ranks floats i entries) ≡ numbers (i + 1) (length entries)
  unfolding stamp_ranks
  stamp_ranks-numbers i [] = refl
  stamp_ranks-numbers i (s ∷ entries) = ap (λ t. (i + 1) ∷ t) (stamp_ranks-numbers (i + 1) entries)

  All-drop :
      (P : SyscallSummary floats → Type 0) (n : ℕ) (entries : List (SyscallSummary floats))
      → All P entries
      → All P (drop n entries)
  All-drop P zero entries h = h
  All-drop P (suc n) [] h = tt
  All-drop P (suc n) (s ∷ entries) h = All-drop P n entries h.1

  -- What is cut off is not above what is kept.
  Falling-take :
      (n : ℕ) (entries : List (SyscallSummary floats))
      → Falling entries
      → All (λ s. All (λ t. t.count ≤ s.count) (drop n entries)) (take n entries)
  Falling-take zero entries h = tt
  Falling-take (suc n) [] h = tt
  Falling-take (suc n) (s ∷ entries) h =
      (All-drop (λ t. t.count ≤ s.count) n entries h.0, Falling-take n entries h.1)

  stamped :
      (cut : List (SyscallSummary floats)) (i : ℕ) (entries : List (SyscallSummary floats))
      → All (λ s. All (λ t. t.count ≤ s.count) cut) entries
      → All (λ s. All (λ t. t.count ≤ s.count) cut) (stamp_ranks floats i entries)
  unfolding stamp_ranks
  stamped cut i [] h = tt
  stamped cut i (s ∷ entries) h = (h.0, stamped cut (i + 1) entries h.1)

  take-short :
      (n : ℕ) (entries : List (SyscallSummary floats))
      → length entries ≤ n
      → take n entries ≡ entries
  take-short zero [] h = refl
  take-short zero (s ∷ entries) h = absurd (omega (arith, h))
  take-short (suc n) [] h = refl
  take-short (suc n) (s ∷ entries) h = ap (λ t. s ∷ t) (take-short n entries (omega (arith, h)))

  module _
      (sort_by_count sort_for_display : List (SyscallSummary floats)
        → List (SyscallSummary floats)) where
    top_five-take :
        (entries : List (SyscallSummary floats))
        → top_five floats sort_by_count sort_for_display entries
          ≡ stamp_ranks floats 0 (take 5 (sort_by_count entries))
    unfolding top_five
    top_five-take entries = elim (Bool-cases (ltb 5 (length (sort_by_count entries)))) [
      | inl long ↦ rw long refl
      | inr short ↦ rw short (
          ap (stamp_ranks floats 0)
            (sym (take-short 5 (sort_by_count entries) (ground (arith, short)))))
    ]

    -- If sorting by the count gives falling counts, the entries kept for a container are the first five of
    -- that order, ranked from 1 on, and none that is left out has a higher count than one that is kept.
    top_five-Falling :
        (entries : List (SyscallSummary floats))
        → Falling (sort_by_count entries)
        → (map (λ s. s.rank) (top_five floats sort_by_count sort_for_display entries)
            ≡ numbers 1 (length (take 5 (sort_by_count entries))))
          × All
              (λ s. All (λ t. t.count ≤ s.count) (drop 5 (sort_by_count entries)))
              (top_five floats sort_by_count sort_for_display entries)
    top_five-Falling entries h = rw (top_five-take entries) (
      stamp_ranks-numbers 0 (take 5 (sort_by_count entries)),
      stamped (drop 5 (sort_by_count entries)) 0 (take 5 (sort_by_count entries))
          (Falling-take 5 (sort_by_count entries) h),
    )
