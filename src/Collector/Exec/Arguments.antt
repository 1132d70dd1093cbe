-- ===== src/Collector/Exec/Arguments.antt =====
-- pkg/collector/exec.go: the arguments that ebpf/exec.c packs are read back.
use self_healing_kubernetes.Base.{
  ℕ, ◌≡◌, refl, ap, false, List, [], ◌∷◌, ◌++◌, map, length, keep, All, nat_eq, ltb, arith,
  length-append,
}
use self_healing_kubernetes.Base.Bytes.{Bytes, text, take-append}
use self_healing_kubernetes.Base.Strings.{Lacks, split, split_loop}
use self_healing_kubernetes.Collector.Exec.{decode_argv, is_argument}

-- The buffer of exec.c: each argument with a zero after it.
abbrev pub packed : List Bytes → Bytes
packed [] = []
packed (a ∷ args) = a ++ 0 ∷ packed args

split_loop-append :
    (sep : ℕ) (a s : Bytes)
    → Lacks sep a
    → split_loop sep (a ++ sep ∷ s) ≡ (a, (split_loop sep s).0 ∷ (split_loop sep s).1)
split_loop-append sep [] s h = ground arith
split_loop-append sep (c ∷ a) s h = ground (arith, split_loop-append sep a s h.1, h.0)

keep-split :
    (args : List Bytes)
    → All (Lacks 0) args
    → keep is_argument (split 0 (packed args)) ≡ keep is_argument args
keep-split [] h = refl
keep-split (a ∷ args) h = rw (split_loop-append 0 a (packed args) h.0) (cc (keep-split args h.1))

-- From a buffer that begins with the packed arguments, and their length, the arguments are read back in
-- their order without the empty ones, if none has a zero byte.
pub decode_argv-packed :
    (args : List Bytes) (rest : Bytes)
    → All (Lacks 0) args
    → decode_argv (packed args ++ rest) (length (packed args)) ≡ map text (keep is_argument args)
unfolding decode_argv
decode_argv-packed [] rest h = refl
decode_argv-packed (a ∷ args) rest h =
    let n = length-append a (0 ∷ packed args) in
    let m = length-append (packed (a ∷ args)) rest in
    let some_length : nat_eq (length (packed (a ∷ args))) 0 ≡ false = ground (arith, n) in
    let fits : ltb (length (packed (a ∷ args) ++ rest)) (length (packed (a ∷ args))) ≡ false =
      ground (arith, m) in
    rw (some_length, fits, take-append (packed (a ∷ args)) rest)
      (ap (map text) (keep-split (a ∷ args) h))
