-- ===== src/Collector/Escape/Parent.antt =====
-- pkg/collector/escape.go: which process an escape event names as the parent.
use mathlib.Core.List.{reverse_aux}
use self_healing_kubernetes.Base.{
  ℕ, suc, ◌≡◌, refl, ap, ◌∙◌, String, some, List, [], ◌∷◌, reverse, arith, Keyed, lookup,
}
use self_healing_kubernetes.Base.Bytes.{text}
use self_healing_kubernetes.Collector.{null_term_str}
use self_healing_kubernetes.Collector.Lineage.{
  LineageEntry, LineageEntryBpf, Tree, to_lineage_entry, lookup_lineage, climb, ancestors,
  parent_of, onwards, lineage_lookup, lineage_key_Eq,
}
use self_healing_kubernetes.Collector.Escape.{EscapeEventRaw, escape_to_envelope, last_comm}

last_comm-reverse_aux :
    (xs ys : List LineageEntry) (e : LineageEntry) (parent : String)
    → last_comm (reverse_aux xs (e ∷ ys)) parent ≡ last_comm ys e.comm
last_comm-reverse_aux [] ys e parent = refl
last_comm-reverse_aux (x ∷ xs) ys e parent = last_comm-reverse_aux xs (e ∷ ys) x parent

module _ (boot_offset : ℕ) (tree : Tree) where
  climb_found :
      (depth cgroup_id tgid : ℕ) (v : LineageEntryBpf)
      → lookup (record { cgroup_id = cgroup_id; tgid = tgid }) tree ≡ some v
      → climb boot_offset tree (suc depth) cgroup_id tgid
        ≡ to_lineage_entry boot_offset v
          ∷ onwards boot_offset tree
              (climb boot_offset tree depth)
              (parent_of boot_offset tree cgroup_id tgid (to_lineage_entry boot_offset v))
  unfolding climb lookup_lineage
  climb_found depth cgroup_id tgid v h = ground (arith, h)

  ancestors-last :
      (cgroup_id tgid : ℕ) (v : LineageEntryBpf) (parent : String)
      → lookup (record { cgroup_id = cgroup_id; tgid = tgid }) tree ≡ some v
      → last_comm (ancestors boot_offset tree cgroup_id tgid 8).0 parent
        ≡ text (null_term_str v.comm)
  unfolding ancestors
  ancestors-last cgroup_id tgid v parent h =
      ap (λ chain. last_comm (reverse chain) parent) (climb_found 7 cgroup_id tgid v h)
      ∙ last_comm-reverse_aux
          (onwards boot_offset tree (climb boot_offset tree 7)
            (parent_of boot_offset tree cgroup_id tgid (to_lineage_entry boot_offset v)))
          [] (to_lineage_entry boot_offset v) parent

  -- If the tree of processes has an entry for the process of an escape event, the event names as the
  -- parent what that entry names: the process itself, not its parent.
  pub escape_to_envelope-parent :
      (range_names : Keyed ℕ String → Keyed ℕ String) (raw : EscapeEventRaw) (name : String)
      (v : LineageEntryBpf)
      → lookup (record { cgroup_id = raw.cgroup_id; tgid = raw.tgid }) tree ≡ some v
      → (escape_to_envelope range_names boot_offset
          (some (lineage_lookup boot_offset tree))
          raw
          name).parent_process
        ≡ text (null_term_str v.comm)
  unfolding escape_to_envelope
  escape_to_envelope-parent range_names raw name v h =
      ancestors-last raw.cgroup_id raw.tgid v (text (null_term_str raw.parent_comm)) h
