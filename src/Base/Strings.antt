-- ===== src/Base/Strings.antt =====
-- What the code uses of Go's package strings, on the bytes of a string.
use Prim.Native.Nat.{ℕ, ◌-◌}
use mathlib.Core.Path.{◌≡◌, refl}
use mathlib.Core.Logic.{◌↔◌, ◌≢◌, inl, inr}
use mathlib.Core.Bool.{Bool, true, false, ◌&&◌}
use mathlib.Core.List.{List, [], ◌∷◌, ◌++◌}
use mathlib.Core.Option.{Option, none, some}
use native.Mathlib.Omega.{arith}
use self_healing_kubernetes.Base.Tests.{Eq, Bool-cases, leb, nat_eq, if◌then◌else◌}
use self_healing_kubernetes.Base.Lists.{length, drop, take, length-append}
use self_healing_kubernetes.Base.Bytes.{Bytes, take-append}

abbrev pub bytes_eq : Bytes → Bytes → Bool
bytes_eq [] [] = true
bytes_eq [] (d ∷ t) = false
bytes_eq (c ∷ s) [] = false
bytes_eq (c ∷ s) (d ∷ t) = nat_eq c d && bytes_eq s t

pub bytes_eq_iff : (s t : Bytes) → (bytes_eq s t ≡ true) ↔ (s ≡ t)
bytes_eq_iff [] [] = (λ _. refl, λ _. refl)
bytes_eq_iff [] (d ∷ t) = (λ h. cc, λ h. cc)
bytes_eq_iff (c ∷ s) [] = (λ h. cc, λ h. cc)
bytes_eq_iff (c ∷ s) (d ∷ t) = ground (arith, bytes_eq_iff s t)

instance abbrev pub bytes_Eq : Eq Bytes
bytes_Eq = record { equal = bytes_eq; equal_iff = bytes_eq_iff }

-- `strings.HasPrefix`
abbrev pub has_prefix : (prefix : Bytes) → Bytes → Bool
has_prefix [] s = true
has_prefix (c ∷ prefix) [] = false
has_prefix (c ∷ prefix) (d ∷ s) = nat_eq c d && has_prefix prefix s

-- `strings.HasSuffix`
abbrev pub has_suffix : (suffix : Bytes) → Bytes → Bool
has_suffix suffix s =
    leb (length suffix) (length s) && bytes_eq (drop (length s - length suffix) s) suffix

-- `strings.TrimPrefix`
abbrev pub trim_prefix : (prefix : Bytes) → Bytes → Bytes
trim_prefix prefix s = if has_prefix prefix s then drop (length prefix) s else s

-- `strings.TrimSuffix`
abbrev pub trim_suffix : (suffix : Bytes) → Bytes → Bytes
trim_suffix suffix s = if has_suffix suffix s then take (length s - length suffix) s else s

-- The first part and the others of `strings.Split(s, sep)`, for a separator of one byte.
abbrev pub split_loop : (sep : ℕ) → Bytes → Bytes × List Bytes
split_loop sep [] = ([], [])
split_loop sep (c ∷ s) =
    let rest = split_loop sep s in
    if nat_eq c sep then ([], rest.0 ∷ rest.1) else (c ∷ rest.0, rest.1)

abbrev pub split : (sep : ℕ) → Bytes → List Bytes
split sep s = let parts = split_loop sep s in parts.0 ∷ parts.1

-- `s[strings.Index(s, sep)+len(sep):]`, or `none` where `sep` is not in `s`.
abbrev pub after_first : (sep : Bytes) → Bytes → Option Bytes
after_first sep [] = if has_prefix sep [] then some (drop (length sep) []) else none
after_first sep (c ∷ s) =
    let rest = after_first sep s in
    if has_prefix sep (c ∷ s) then some (drop (length sep) (c ∷ s)) else rest

-- `strings.LastIndexByte(s, c)`, and what follows it: `none` where the byte is not in `s`.
abbrev pub after_last : (c : ℕ) → Bytes → Option Bytes
after_last c [] = none
after_last c (d ∷ s) =
    let rest = after_last c s in
    elim rest [ some t ↦ some t | none ↦ if nat_eq d c then some s else none ]

-- `s[:strings.LastIndex(s, c)]`: `none` where the byte is not in `s`.
abbrev pub before_last : (c : ℕ) → Bytes → Option Bytes
before_last c [] = none
before_last c (d ∷ s) =
    let rest = before_last c s in
    elim rest [ some t ↦ some (d ∷ t) | none ↦ if nat_eq d c then some [] else none ]

abbrev pub Lacks : (c : ℕ) → Bytes → Type 0
Lacks c [] = Unit
Lacks c (d ∷ s) = (d ≢ c) × Lacks c s

pub has_prefix-append : (p s : Bytes) → has_prefix p (p ++ s) ≡ true
has_prefix-append [] s = refl
has_prefix-append (c ∷ p) s = ground (arith, has_prefix-append p s)

pub drop-length_append : (s t : Bytes) → drop (length s) (s ++ t) ≡ t
drop-length_append [] t = refl
drop-length_append (c ∷ s) t = drop-length_append s t

pub trim_prefix-append : (p s : Bytes) → trim_prefix p (p ++ s) ≡ s
trim_prefix-append p s = rw has_prefix-append (drop-length_append p s)

suffix_from : (s t : Bytes) → length (s ++ t) - length t ≡ length s
suffix_from s t = omega (arith, length-append s t)

pub has_suffix-append : (s t : Bytes) → has_suffix t (s ++ t) ≡ true
has_suffix-append s t =
    rw (suffix_from, drop-length_append) (ground (arith, length-append s t, bytes_eq_iff t t))

pub trim_suffix-append : (s t : Bytes) → trim_suffix t (s ++ t) ≡ s
trim_suffix-append s t = rw (has_suffix-append, suffix_from, take-append) refl

abbrev pub last_of : Bytes → List Bytes → Bytes
last_of part [] = part
last_of part (next ∷ parts) = last_of next parts

-- The last part of a path is the name after its last separator.
pub split_loop-Lacks : (sep : ℕ) (s : Bytes) → Lacks sep s → split_loop sep s ≡ (s, [])
split_loop-Lacks sep [] h = refl
split_loop-Lacks sep (c ∷ s) h = ground (arith, split_loop-Lacks sep s h.1, h.0)

-- The last part of a text that ends in a name without the separator is that name.
split_loop-last :
    (sep : ℕ) (dir name : Bytes)
    → Lacks sep name
    → (part : Bytes) × (parts : List Bytes) × ((split_loop sep (dir ++ sep ∷ name)).1
        ≡ part ∷ parts)
      × (last_of part parts ≡ name)
split_loop-last sep [] name h = (name, [], ground (arith, split_loop-Lacks sep name h), refl)
split_loop-last sep (c ∷ dir) name h =
    let (part, parts, e, l) = split_loop-last sep dir name h in
    elim (Bool-cases (nat_eq c sep)) [
      | inl same ↦ ((split_loop sep (dir ++ sep ∷ name)).0, part ∷ parts, rw same (rw e refl), l)
      | inr other ↦ (part, parts, rw other e, l)
    ]

-- `parts[len(parts)-1]`
abbrev pub last_part : (sep : ℕ) → Bytes → Bytes
last_part sep s = let parts = split_loop sep s in last_of parts.0 parts.1

pub last_part-append :
    (sep : ℕ) (dir name : Bytes) → Lacks sep name → last_part sep (dir ++ sep ∷ name) ≡ name
last_part-append sep dir name h = let (part, parts, e, l) = split_loop-last sep dir name h in rw e l

pub last_part_plain : (sep : ℕ) (name : Bytes) → Lacks sep name → last_part sep name ≡ name
last_part_plain sep name h = rw (split_loop-Lacks sep name h) refl

pub Lacks-append : (sep : ℕ) (s t : Bytes) → Lacks sep s → Lacks sep t → Lacks sep (s ++ t)
Lacks-append sep [] t hs ht = ht
Lacks-append sep (c ∷ s) t hs ht = (hs.0, Lacks-append sep s t hs.1 ht)
