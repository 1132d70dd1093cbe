-- ===== src/Base/Bytes.antt =====
-- Bytes: Go's conversion `string(b)`, `fmt.Sprintf("%d")` of a uint64, `encoding/binary`'s little-endian
-- numbers, and the slices of a record that is laid out field after field. A Go string is its bytes;
-- as a `String`, each byte is the character of that number.
use Prim.Native.Nat.{compare, Ordering, ℕ, zero, suc, ◌+◌, ◌*◌, ◌/◌, ◌%◌, ◌^◌, ◌<◌, ◌-◌}
use Prim.Native.Char.{Char, char, code, IsScalar}
use Prim.Native.String.{String}
use mathlib.Core.Path.{◌≡◌, refl, ap, sym, ◌∙◌}
use mathlib.Core.List.{List, [], ◌∷◌, ◌++◌}
use native.Mathlib.Nat.{pow-suc}
use native.Mathlib.Omega.{arith}
use self_healing_kubernetes.Base.Tests.{ltb, if◌then◌else◌}
use self_healing_kubernetes.Base.Lists.{length, drop, take, length-append}

abbrev pub Bytes : Type 0
Bytes = List ℕ

below_surrogates : (n : ℕ) → compare (n % 256) 55296 ≡ Ordering.lt
below_surrogates n = ground arith

pub byte-IsScalar : (n : ℕ) → IsScalar (n % 256)
byte-IsScalar n = rw below_surrogates tt

abbrev pub byte_char : ℕ → Char
byte_char n = char (n % 256) (byte-IsScalar n)

-- `string(b)`
unfoldable pub text : Bytes → String
text [] = String.[]
text (b ∷ bs) = String.◌∷◌ (byte_char b) (text bs)

-- The bytes of a text of one byte a character.
abbrev pub codes : String → Bytes
codes String.[] = []
codes (String.◌∷◌ c s) = code c ∷ codes s

-- `binary.LittleEndian`'s `Uint16`, `Uint32` and `Uint64`, each on its slice.
abbrev pub little_endian : Bytes → ℕ
little_endian [] = 0
little_endian (b ∷ bs) = b + 256 * little_endian bs

-- The n low bytes of a number, the lowest first.
abbrev pub bytes_of : ℕ → ℕ → Bytes
bytes_of zero x = []
bytes_of (suc n) x = x % 256 ∷ bytes_of n (x / 256)

pub length-bytes_of : (n x : ℕ) → length (bytes_of n x) ≡ n
length-bytes_of zero x = refl
length-bytes_of (suc n) x = omega (arith, length-bytes_of n (x / 256))

pub little_endian-bytes_of : (n x : ℕ) → x < 256 ^ n → little_endian (bytes_of n x) ≡ x
little_endian-bytes_of zero x h = omega arith
little_endian-bytes_of (suc n) x h =
    omega (arith, pow-suc 256 n, little_endian-bytes_of n (x / 256) (omega (arith, pow-suc 256 n)))

-- `data[from : from+n]`
abbrev pub slice : (from n : ℕ) → Bytes → Bytes
slice from n bytes = take n (drop from bytes)

-- The fields of a record, laid out one after the other.
abbrev pub laid_out : List Bytes → Bytes
laid_out [] = []
laid_out (field ∷ fields) = field ++ laid_out fields

abbrev pub width : List Bytes → ℕ
width [] = 0
width (field ∷ fields) = length field + width fields

pub length-laid_out : (fields : List Bytes) → length (laid_out fields) ≡ width fields
length-laid_out [] = refl
length-laid_out (field ∷ fields) =
    omega (arith, length-append field (laid_out fields), length-laid_out fields)

drop-append : (xs ys : Bytes) (m n : ℕ) → m ≡ length xs + n → drop m (xs ++ ys) ≡ drop n ys
drop-append [] ys m n h = ap (λ k. drop k ys) (omega (arith, h))
drop-append (x ∷ xs) ys zero n h = absurd (omega (arith, h))
drop-append (x ∷ xs) ys (suc m) n h = drop-append xs ys m n (omega (arith, h))

pub take-append : (xs ys : Bytes) → take (length xs) (xs ++ ys) ≡ xs
take-append [] ys = refl
take-append (x ∷ xs) ys = ap (λ t. x ∷ t) (take-append xs ys)

slice-width :
    (before : List Bytes) (field : Bytes) (after : List Bytes)
    → slice (width before) (length field) (laid_out (before ++ field ∷ after)) ≡ field
slice-width [] field after = take-append field (laid_out after)
slice-width (f ∷ before) field after =
    ap (take (length field)) (
      drop-append f (laid_out (before ++ field ∷ after)) (length f + width before) (width before)
        refl)
    ∙ slice-width before field after

-- A field is the slice that begins after the fields before it.
pub slice-laid_out :
    (before : List Bytes) (field : Bytes) (after : List Bytes) (from n : ℕ)
    → width before ≡ from
    → length field ≡ n
    → slice from n (laid_out (before ++ field ∷ after)) ≡ field
slice-laid_out before field after from n h k = rw (sym h, sym k) (slice-width before field after)

-- The decimal digits of a number below `10 ^ fuel`.
abbrev pub digits : (fuel : ℕ) → ℕ → Bytes
digits zero n = []
digits (suc fuel) n =
    let rest = digits fuel (n / 10) in
    if ltb n 10 then (48 + n) ∷ [] else rest ++ ((48 + n % 10) ∷ [])

-- `fmt.Sprintf("%d")` of a uint64, which has 20 digits at most.
abbrev pub decimal : ℕ → String
decimal n = text (digits 20 n)

-- The number that digits say, after the digits of `n`.
abbrev pub read_digits : ℕ → Bytes → ℕ
read_digits n [] = n
read_digits n (c ∷ cs) = read_digits (n * 10 + (c - 48)) cs

read_digits-append :
    (n : ℕ) (cs : Bytes) (c : ℕ) → read_digits n (cs ++ c ∷ []) ≡ read_digits n cs * 10 + (c - 48)
read_digits-append n [] c = refl
read_digits-append n (d ∷ cs) c = read_digits-append (n * 10 + (d - 48)) cs c

-- Enough digits name the number they were written for.
pub read_digits-digits : (fuel n : ℕ) → n < 10 ^ suc fuel → read_digits 0 (digits (suc fuel) n) ≡ n
read_digits-digits zero n h = ground arith
read_digits-digits (suc fuel) n h = ground (
  arith,
  pow-suc 10 (suc fuel),
  read_digits-append 0 (digits (suc fuel) (n / 10)) (48 + n % 10),
  read_digits-digits fuel (n / 10) (omega (arith, pow-suc 10 (suc fuel))),
)
