-- ===== src/Base/Lists.antt =====
-- Lists measured and indexed by native numbers, and filtered by Boolean tests.
use Prim.Native.Nat.{ℕ, zero, suc, ◌+◌, ◌-◌, ◌≤◌, ◌<◌}
use mathlib.Core.Path.{◌≡◌, refl}
use mathlib.Core.Bool.{Bool, true, false, ◌&&◌, ◌||◌}
use mathlib.Core.List.{List, [], ◌∷◌, ◌++◌}
use mathlib.Core.Option.{Option, none, some}
use native.Mathlib.Omega.{arith}
use self_healing_kubernetes.Base.Tests.{if◌then◌else◌, nat_eq}

module _ {ℓ} {A : Type ℓ} where
  abbrev pub length : List A → ℕ
  length [] = 0
  length (x ∷ xs) = suc (length xs)

  abbrev pub get_elem? : List A → ℕ → Option A
  get_elem? [] i = none
  get_elem? (x ∷ xs) zero = some x
  get_elem? (x ∷ xs) (suc i) = get_elem? xs i

  abbrev pub drop : ℕ → List A → List A
  drop zero xs = xs
  drop (suc n) [] = []
  drop (suc n) (x ∷ xs) = drop n xs

  -- `for _, x := range xs { if p(x) { out = append(out, x) } }`
  abbrev pub keep : (A → Bool) → List A → List A
  keep p [] = []
  keep p (x ∷ xs) = if p x then x ∷ keep p xs else keep p xs

  -- `for i < len(xs) && p(xs[i]) { i++ }; xs = xs[i:]`
  abbrev pub drop_while : (A → Bool) → List A → List A
  drop_while p [] = []
  drop_while p (x ∷ xs) = if p x then drop_while p xs else x ∷ xs

  -- `for _, x := range xs { if p(x) { return true } }; return false`
  abbrev pub any : (A → Bool) → List A → Bool
  any p [] = false
  any p (x ∷ xs) = p x || any p xs

  -- `for _, x := range xs { if !p(x) { return false } }; return true`
  abbrev pub all : (A → Bool) → List A → Bool
  all p [] = true
  all p (x ∷ xs) = p x && all p xs

  -- How many elements pass the test.
  abbrev pub tally : (A → Bool) → List A → ℕ
  tally p [] = 0
  tally p (x ∷ xs) = (if p x then 1 else 0) + tally p xs

  abbrev pub All {κ} : (A → Type κ) → List A → Type κ
  All P [] = Unit
  All P (x ∷ xs) = P x × All P xs

  pub length-append : (xs ys : List A) → length (xs ++ ys) ≡ length xs + length ys
  length-append [] ys = omega arith
  length-append (x ∷ xs) ys = omega (arith, length-append xs ys)

  pub length-drop : (n : ℕ) (xs : List A) → length (drop n xs) ≡ length xs - n
  length-drop zero xs = omega arith
  length-drop (suc n) [] = omega arith
  length-drop (suc n) (x ∷ xs) = omega (arith, length-drop n xs)

  pub length-keep-le : (p : A → Bool) (xs : List A) → length (keep p xs) ≤ length xs
  length-keep-le p [] = omega arith
  length-keep-le p (x ∷ xs) = ground (arith, length-keep-le p xs)

  pub keep-append : (p : A → Bool) (xs ys : List A) → keep p (xs ++ ys) ≡ keep p xs ++ keep p ys
  keep-append p [] ys = refl
  keep-append p (x ∷ xs) ys = ground (arith, keep-append p xs ys)

  -- Two passes are one, where the second test implies the first.
  pub keep-keep :
      (p q : A → Bool) (xs : List A)
      → ((x : A) → q x ≡ true → p x ≡ true)
      → keep q (keep p xs) ≡ keep q xs
  keep-keep p q [] h = refl
  keep-keep p q (x ∷ xs) h = ground (arith, keep-keep p q xs h, h x)

  pub tally-keep : (p : A → Bool) (xs : List A) → length (keep p xs) ≡ tally p xs
  tally-keep p [] = refl
  tally-keep p (x ∷ xs) = ground (arith, tally-keep p xs)

  pub tally-le-length : (p : A → Bool) (xs : List A) → tally p xs ≤ length xs
  tally-le-length p [] = omega arith
  tally-le-length p (x ∷ xs) = ground (arith, tally-le-length p xs)

  pub tally-append : (p : A → Bool) (xs ys : List A) → tally p (xs ++ ys) ≡ tally p xs + tally p ys
  tally-append p [] ys = omega arith
  tally-append p (x ∷ xs) ys = omega (arith, tally-append p xs ys)

  pub keep-eq_self : (p : A → Bool) (xs : List A) → All (λ x. p x ≡ true) xs → keep p xs ≡ xs
  keep-eq_self p [] h = refl
  keep-eq_self p (x ∷ xs) h = ground (arith, keep-eq_self p xs)

  pub All-append {κ} : (P : A → Type κ) (xs ys : List A) → All P xs → All P ys → All P (xs ++ ys)
  All-append P [] ys h k = k
  All-append P (x ∷ xs) ys h k = (h.0, All-append P xs ys h.1 k)

  -- The last element of a list stays the last when elements are dropped before it.
  pub get_elem?-last : (xs : List A) (y : A) → get_elem? (xs ++ y ∷ []) (length xs) ≡ some y
  get_elem?-last [] y = refl
  get_elem?-last (x ∷ xs) y = get_elem?-last xs y

  -- `xs[i] = v`; a write out of bounds changes nothing.
  abbrev pub set : List A → ℕ → A → List A
  set [] i v = []
  set (x ∷ xs) zero v = v ∷ xs
  set (x ∷ xs) (suc i) v = x ∷ set xs i v

  -- `make([]T, n)`
  abbrev pub replicate : ℕ → A → List A
  replicate zero v = []
  replicate (suc n) v = v ∷ replicate n v

  pub length-set : (xs : List A) (i : ℕ) (v : A) → length (set xs i v) ≡ length xs
  length-set [] i v = refl
  length-set (x ∷ xs) zero v = refl
  length-set (x ∷ xs) (suc i) v = omega (arith, length-set xs i v)

  pub length-replicate : (n : ℕ) (v : A) → length (replicate n v) ≡ n
  length-replicate zero v = refl
  length-replicate (suc n) v = omega (arith, length-replicate n v)

  pub get_elem?-set :
      (xs : List A) (i j : ℕ) (v : A)
      → i < length xs
      → get_elem? (set xs i v) j ≡ (if nat_eq i j then some v else get_elem? xs j)
  get_elem?-set [] i j v h = absurd (omega (arith, h))
  get_elem?-set (x ∷ xs) zero zero v h = refl
  get_elem?-set (x ∷ xs) zero (suc j) v h = ground arith
  get_elem?-set (x ∷ xs) (suc i) zero v h = ground arith
  get_elem?-set (x ∷ xs) (suc i) (suc j) v h = ground (arith, get_elem?-set xs i j v)

  pub get_elem?-append_left :
      (xs ys : List A) (i : ℕ) → i < length xs → get_elem? (xs ++ ys) i ≡ get_elem? xs i
  get_elem?-append_left [] ys i h = absurd (omega (arith, h))
  get_elem?-append_left (x ∷ xs) ys zero h = refl
  get_elem?-append_left (x ∷ xs) ys (suc i) h = get_elem?-append_left xs ys i (omega (arith, h))

  pub get_elem?_in : (xs : List A) (i : ℕ) → i < length xs → (x : A) × (get_elem? xs i ≡ some x)
  get_elem?_in [] i h = absurd (omega (arith, h))
  get_elem?_in (x ∷ xs) zero h = (x, refl)
  get_elem?_in (x ∷ xs) (suc i) h = get_elem?_in xs i (omega (arith, h))

  pub drop-eq-cons :
      (xs : List A) (i : ℕ) (x : A) → get_elem? xs i ≡ some x → drop i xs ≡ x ∷ drop (suc i) xs
  drop-eq-cons [] i x e = cc
  drop-eq-cons (y ∷ xs) zero x e = cc
  drop-eq-cons (y ∷ xs) (suc i) x e = drop-eq-cons xs i x e

  pub drop_all : (xs : List A) (i : ℕ) → length xs ≤ i → drop i xs ≡ []
  drop_all [] zero h = refl
  drop_all [] (suc i) h = refl
  drop_all (x ∷ xs) zero h = absurd (omega (arith, h))
  drop_all (x ∷ xs) (suc i) h = drop_all xs i (omega (arith, h))

  abbrev pub take : ℕ → List A → List A
  take zero xs = []
  take (suc n) [] = []
  take (suc n) (x ∷ xs) = x ∷ take n xs

  pub length-take : (n : ℕ) (xs : List A) → n ≤ length xs → length (take n xs) ≡ n
  length-take zero xs h = refl
  length-take (suc n) [] h = absurd (omega (arith, h))
  length-take (suc n) (x ∷ xs) h = omega (arith, length-take n xs (omega (arith, h)))

  pub get_elem?-take :
      (n : ℕ) (xs : List A) (i : ℕ) → i < n → get_elem? (take n xs) i ≡ get_elem? xs i
  get_elem?-take zero xs i h = absurd (omega (arith, h))
  get_elem?-take (suc n) [] i h = refl
  get_elem?-take (suc n) (x ∷ xs) zero h = refl
  get_elem?-take (suc n) (x ∷ xs) (suc i) h = get_elem?-take n xs i (omega (arith, h))

  pub eq_of_get_elem? :
      (xs ys : List A)
      → length xs ≡ length ys
      → ((i : ℕ) → i < length xs → get_elem? xs i ≡ get_elem? ys i)
      → xs ≡ ys
  eq_of_get_elem? [] [] e h = refl
  eq_of_get_elem? [] (y ∷ ys) e h = absurd (omega (arith, e))
  eq_of_get_elem? (x ∷ xs) [] e h = absurd (omega (arith, e))
  eq_of_get_elem? (x ∷ xs) (y ∷ ys) e h = cc (
    h 0 (omega arith),
    eq_of_get_elem? xs ys (omega (arith, e)) (λ i k. h (suc i) (omega (arith, k))),
  )

  pub All-imp {κ μ} :
      (P : A → Type κ) (Q : A → Type μ) (xs : List A) → ((x : A) → P x → Q x) → All P xs → All Q xs
  All-imp P Q [] f h = tt
  All-imp P Q (x ∷ xs) f h = (f x h.0, All-imp P Q xs f h.1)
