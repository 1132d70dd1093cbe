-- ===== src/Base/Ring.antt =====
-- A circular array against the list of all that was written to it, oldest first: the laws that the
-- rings of the program share.
use Prim.Native.Nat.{ℕ, zero, suc, ◌+◌, ◌-◌, ◌%◌, ◌≤◌, ◌<◌, min}
use mathlib.Core.Path.{◌≡◌, refl, sym, ap, ◌∙◌}
use mathlib.Core.Bool.{false}
use mathlib.Core.List.{List, [], ◌∷◌, ◌++◌}
use mathlib.Core.Option.{Option, none, some}
use native.Mathlib.Nat.{mod-eq_of_lt, mod-eq-sub-mod}
use native.Mathlib.Omega.{arith}
use self_healing_kubernetes.Base.Tests.{ltb, nat_eq, if◌then◌else◌}
use self_healing_kubernetes.Base.Lists.{
  length, get_elem?, set, length-set, length-append, replicate, length-replicate, drop, drop_all,
  drop-eq-cons, get_elem?_in, take, length-take, get_elem?-take, eq_of_get_elem?, get_elem?-set,
  get_elem?-append_left, get_elem?-last,
}

-- `%` on a sum of two indices.
pub mod-eq-wrapped :
    (i width : ℕ) → i < width + width → i % width ≡ (if ltb i width then i else i - width)
mod-eq-wrapped i width h = ground (
  arith,
  mod-eq_of_lt {n = i} {m = width},
  mod-eq-sub-mod {n = i} {m = width},
  mod-eq_of_lt {n = i - width} {m = width},
)

-- The slot of the k-th newest element, where `head` is the slot to write next.
abbrev pub slot : (width head k : ℕ) → ℕ
slot width head k = if ltb k head then head - suc k else head + width - suc k

-- A step of the head moves every element one place back, to the same slot.
slot-next :
    (width head k : ℕ)
    → head < width
    → suc k < width
    → slot width ((head + 1) % width) (suc k) ≡ slot width head k
slot-next width head k h below = ground (arith, mod-eq-wrapped (head + 1) width)

slot-ne_head :
    (width head k : ℕ) → head < width → suc k < width → nat_eq head (slot width head k) ≡ false
slot-ne_head width head k h below = ground arith

index-slot :
    (width head size n : ℕ)
    → head < width
    → size ≤ width
    → suc n ≤ size
    → ((head + width - size) % width + (size - suc n)) % width ≡ slot width head n
index-slot width head size n h k l = ground (
  arith,
  mod-eq-wrapped (head + width - size) width,
  mod-eq-wrapped ((head + width - size) % width + (size - suc n)) width,
)

module _ {A : Type 0} where
  -- The array holds the last `size` elements of the log.
  pub record Follows (array : List A) (width head size : ℕ) (log : List A) : Type 0 where
    pub length_array : length array ≡ width
    pub head_in : head < width
    pub size_eq : size ≡ min width (length log)
    pub unwrapped : size < width → head ≡ size
    pub at :
        (k : ℕ)
        → k < size
        → get_elem? array (slot width head k) ≡ get_elem? log (length log - suc k)

  -- What a write at the head leaves at the k-th newest slot.
  at-push :
      (array : List A) (width head size size' : ℕ) (log : List A) (x : A) (k : ℕ)
      → Follows array width head size log
      → size' ≡ (if ltb size width then size + 1 else size)
      → k < size'
      → get_elem? (set array head x) (slot width ((head + 1) % width) k)
        ≡ get_elem? (log ++ x ∷ []) (length (log ++ x ∷ []) - suc k)
  at-push array width head size size' log x zero f e h = ground (
    arith,
    mod-eq-wrapped (head + 1) width,
    length-append log (x ∷ []),
    get_elem?-last log x,
    get_elem?-set array head head x,
  )
  at-push array width head size size' log x (suc k) f e h =
      let below : suc k < width = ground (arith, f) in
      let same = slot-next width head k f.head_in below in
      let apart : nat_eq head (slot width head k) ≡ false =
        slot-ne_head width head k f.head_in below in
      rw
        (
          same,
          get_elem?-set array head (slot width head k) x (omega (arith, f.head_in, f.length_array)),
          apart,
        )
        (f.at k (ground arith)
          ∙ sym (get_elem?-append_left log (x ∷ []) (length log - suc k) (ground arith))
          ∙ ap (get_elem? (log ++ x ∷ [])) {x = length log - suc k}
              {y = length (log ++ x ∷ []) - suc (suc k)}
              (omega (arith, length-append log (x ∷ []))))

  pub Follows-push :
      (array : List A) (width head size size' : ℕ) (log : List A) (x : A)
      → Follows array width head size log
      → size' ≡ (if ltb size width then size + 1 else size)
      → Follows (set array head x) width ((head + 1) % width) size' (log ++ x ∷ [])
  Follows-push array width head size size' log x f e = record {
    length_array = length-set array head x ∙ f.length_array;
    head_in = ground (arith, f, mod-eq-wrapped (head + 1) width);
    size_eq = ground (arith, f, length-append log (x ∷ []));
    unwrapped = λ h. ground (arith, f, f.unwrapped, mod-eq-wrapped (head + 1) width);
    at = λ k h. at-push array width head size size' log x k f e h;
  }

  pub Follows-empty :
      (width : ℕ) (fill : A) → 0 < width → Follows (replicate width fill) width 0 0 []
  Follows-empty width fill pos = record {
    length_array = length-replicate width fill;
    head_in = pos;
    size_eq = omega arith;
    unwrapped = λ h. refl;
    at = λ k h. absurd (omega (arith, h));
  }

  -- The loop `for ; n > 0; i++ { out = append(out, array[(start+i)%width]) }`; `none` is the panic
  -- on an index out of range.
  unfoldable pub read_wrapped : List A → (width start n i : ℕ) → Option (List A)
  read_wrapped array width start zero i = some []
  read_wrapped array width start (suc n) i =
      let rest = read_wrapped array width start n (suc i) in
      elim (get_elem? array ((start + i) % width)) [
        | none ↦ none
        | some x ↦ elim rest [ none ↦ none | some xs ↦ some (x ∷ xs) ]
      ]

  read_from :
      (array : List A) (width head size : ℕ) (log : List A) (n i : ℕ)
      → Follows array width head size log
      → n + i ≡ size
      → read_wrapped array width ((head + width - size) % width) n i
        ≡ some (drop (length log - n) log)
  unfolding read_wrapped
  read_from array width head size log zero i f e =
      ap some (sym (drop_all log (length log - 0) (omega arith)))
  read_from array width head size log (suc n) i f e =
      let (x, found) = get_elem?_in log (length log - suc n) (omega (arith, e, f.size_eq)) in
      let here : get_elem? array (((head + width - size) % width + i) % width) ≡ some x =
        ap (get_elem? array) (
          ap (λ j. ((head + width - size) % width + j) % width) {x = i} {y = size - suc n}
            (omega (arith, e))
          ∙ index-slot width head size n f.head_in (omega (arith, f.size_eq)) (omega (arith, e)))
        ∙ f.at n (omega (arith, e))
        ∙ found in
      let tail : drop (suc (length log - suc n)) log ≡ drop (length log - n) log =
        ap (λ k. drop k log) {x = suc (length log - suc n)} {y = length log - n}
          (omega (arith, e, f.size_eq)) in
      ground (
        arith,
        here,
        read_from array width head size log n (suc i) f (omega (arith, e)),
        drop-eq-cons log (length log - suc n) x found,
        tail,
      )

  -- Reading the whole ring from its oldest slot gives the last `size` elements of the log.
  pub read_wrapped-Follows :
      (array : List A) (width head size : ℕ) (log : List A)
      → Follows array width head size log
      → read_wrapped array width ((head + width - size) % width) size 0
        ≡ some (drop (length log - width) log)
  read_wrapped-Follows array width head size log f =
      read_from array width head size log size 0 f (omega arith)
      ∙ ap (λ n. some (drop n log)) {x = length log - size} {y = length log - width}
          (omega (arith, f.size_eq))

  -- A ring that is not full holds the log from its first slot on.
  pub take-Follows :
      (array : List A) (width head size : ℕ) (log : List A)
      → Follows array width head size log
      → size < width
      → take size array ≡ log
  take-Follows array width head size log f h =
      let all : size ≡ length log = omega (arith, h, f.size_eq) in
      let full = length-take size array (omega (arith, h, f.length_array)) in
      eq_of_get_elem? (take size array) log (full ∙ all) λ i k.
        let below : i < size = omega (arith, k, full) in
        get_elem?-take size array i below
        ∙ ap (get_elem? array) {x = i} {y = slot width head (size - suc i)}
            (ground (arith, f.unwrapped h))
        ∙ f.at (size - suc i) (omega (arith, below))
        ∙ ap (get_elem? log) {x = length log - suc (size - suc i)} {y = i}
            (omega (arith, below, all))
