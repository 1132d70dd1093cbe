-- ===== src/Collector/Lineage/Ancestry.antt =====
-- pkg/collector/lineage.go: the chain of ancestors is bounded, and whole where it is not truncated.
use mathlib.Core.List.{reverse_aux}
use self_healing_kubernetes.Base.{
  ℕ, zero, suc, ◌+◌, ◌≤◌, ◌≡◌, ap, sym, subst, ◌∙◌, inl, inr, false, none, some, List, [], ◌∷◌,
  arith, length, Option-cases, reverse,
}
use self_healing_kubernetes.Collector.Lineage.{
  LineageEntry, Tree, lookup_lineage, climb, is_truncated, ancestors, lineage_key_Eq, parent_of,
}

module _ (boot_offset : ℕ) (tree : Tree) where
  walk_missing :
      (depth c t : ℕ)
      → lookup_lineage boot_offset tree c t ≡ none
      → climb boot_offset tree (suc depth) c t ≡ []
  unfolding climb
  walk_missing depth c t h = ground (arith, h)

  walk_last :
      (depth c t : ℕ) (entry : LineageEntry)
      → lookup_lineage boot_offset tree c t ≡ some entry
      → parent_of boot_offset tree c t entry ≡ none
      → climb boot_offset tree (suc depth) c t ≡ entry ∷ []
  unfolding climb
  walk_last depth c t entry h p = ground (arith, h, p)

  walk_on :
      (depth c t : ℕ) (entry : LineageEntry) (c' t' : ℕ)
      → lookup_lineage boot_offset tree c t ≡ some entry
      → parent_of boot_offset tree c t entry ≡ some (c', t')
      → climb boot_offset tree (suc depth) c t ≡ entry ∷ climb boot_offset tree depth c' t'
  unfolding climb
  walk_on depth c t entry c' t' h p = ground (arith, h, p)

  climb_one :
      (c t : ℕ) (entry : LineageEntry)
      → lookup_lineage boot_offset tree c t ≡ some entry
      → climb boot_offset tree 1 c t ≡ entry ∷ []
  unfolding climb
  climb_one c t entry h = elim (Option-cases (parent_of boot_offset tree c t entry)) [
    | inl p ↦ walk_last 0 c t entry h p
    | inr ((c', t'), p) ↦ walk_on 0 c t entry c' t' h p
  ]

  climb-bounded : (depth c t : ℕ) → length (climb boot_offset tree depth c t) ≤ depth
  unfolding climb
  climb-bounded zero c t = omega arith
  climb-bounded (suc depth) c t = elim (Option-cases (lookup_lineage boot_offset tree c t)) [
    | inl h ↦ rw (walk_missing depth c t h) (omega arith)
    | inr (entry, h) ↦ elim (Option-cases (parent_of boot_offset tree c t entry)) [
      | inl p ↦ rw (walk_last depth c t entry h p) (omega arith)
      | inr ((c', t'), p) ↦
          rw (walk_on depth c t entry c' t' h p) (omega (arith, climb-bounded depth c' t'))
    ]
  ]

  truncated-tail :
      (depth : ℕ) (entry : LineageEntry) (rest : List LineageEntry)
      → is_truncated boot_offset tree (suc (suc depth)) (entry ∷ rest) ≡ false
      → is_truncated boot_offset tree (suc depth) rest ≡ false
  truncated-tail depth entry [] h = ground arith
  truncated-tail depth entry (f ∷ rest) h = ground arith

  root-stops :
      (c t : ℕ) (entry : LineageEntry)
      → is_truncated boot_offset tree 1 (entry ∷ []) ≡ false
      → parent_of boot_offset tree c t entry ≡ none
  unfolding parent_of
  root-stops c t entry h = ground arith

  climb-whole :
      (depth deeper c t : ℕ)
      → depth ≤ deeper
      → is_truncated boot_offset tree (suc depth) (climb boot_offset tree (suc depth) c t) ≡ false
      → climb boot_offset tree (suc deeper) c t ≡ climb boot_offset tree (suc depth) c t
  climb-whole zero deeper c t le h = elim (Option-cases (lookup_lineage boot_offset tree c t)) [
    | inl e ↦ walk_missing deeper c t e ∙ sym (walk_missing 0 c t e)
    | inr (entry, e) ↦
        let alone = climb_one c t entry e in
        let stops =
          root-stops c t entry
            (subst (λ chain. is_truncated boot_offset tree 1 chain ≡ false) alone h) in
        walk_last deeper c t entry e stops ∙ sym alone
  ]
  climb-whole (suc depth) zero c t le h = absurd (omega (arith, le))
  climb-whole (suc depth) (suc deeper) c t le h =
      elim (Option-cases (lookup_lineage boot_offset tree c t)) [
        | inl e ↦ walk_missing (suc deeper) c t e ∙ sym (walk_missing (suc depth) c t e)
        | inr (entry, e) ↦ elim (Option-cases (parent_of boot_offset tree c t entry)) [
          | inl p ↦ walk_last (suc deeper) c t entry e p ∙ sym (walk_last (suc depth) c t entry e p)
          | inr ((c', t'), p) ↦
              let on = walk_on (suc depth) c t entry c' t' e p in
              let cut = truncated-tail depth entry (climb boot_offset tree (suc depth) c' t') (
                subst (λ chain. is_truncated boot_offset tree (suc (suc depth)) chain ≡ false) on
                  h) in
              walk_on (suc deeper) c t entry c' t' e p
              ∙ ap (λ rest. entry ∷ rest) (climb-whole depth deeper c' t' (omega (arith, le)) cut)
              ∙ sym on
        ]
      ]

  length-reverse_aux :
      (xs ys : List LineageEntry) → length (reverse_aux xs ys) ≡ length xs + length ys
  length-reverse_aux [] ys = omega arith
  length-reverse_aux (x ∷ xs) ys = omega (arith, length-reverse_aux xs (x ∷ ys))

  length-reverse : (xs : List LineageEntry) → length (reverse xs) ≡ length xs
  length-reverse xs = omega (arith, length-reverse_aux xs [])

  ancestors-depth :
      (c t depth : ℕ)
      → ancestors boot_offset tree c t (suc depth) ≡ (
        reverse (climb boot_offset tree (suc depth) c t),
        is_truncated boot_offset tree (suc depth) (climb boot_offset tree (suc depth) c t),
      )
  unfolding ancestors
  ancestors-depth c t depth = ground arith

  -- For every bound above 0 the answer has at most that many entries, and if it is not marked as truncated
  -- every larger bound gives the same chain.
  pub ancestors-whole :
      (cgroup_id tgid depth deeper : ℕ)
      → depth ≤ deeper
      → (length (ancestors boot_offset tree cgroup_id tgid (suc depth)).0 ≤ suc depth)
        × ((ancestors boot_offset tree cgroup_id tgid (suc depth)).1 ≡ false
            → (ancestors boot_offset tree cgroup_id tgid (suc deeper)).0
              ≡ (ancestors boot_offset tree cgroup_id tgid (suc depth)).0)
  ancestors-whole c t depth deeper le = (
    rw (ancestors-depth c t depth) (
        omega (
          arith,
          length-reverse (climb boot_offset tree (suc depth) c t),
          climb-bounded (suc depth) c t,
        )),
    λ h.
        ap (λ a. a.0) (ancestors-depth c t deeper)
        ∙ ap reverse
            (climb-whole depth deeper c t le (sym (ap (λ a. a.1) (ancestors-depth c t depth)) ∙ h))
        ∙ sym (ap (λ a. a.0) (ancestors-depth c t depth)),
  )
