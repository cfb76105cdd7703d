-- ===== src/Anyint/Limbs.antt =====
-- src/int.rs: the magnitude of an `Anyint`, a vector of 64-bit limbs with the least significant
-- first. The words are numbers; a `u64` or `u128` operation that can wrap has its `% 2 ^ w`.
use vif.Prelude.{
  ℕ, zero, suc, ◌+◌, ◌*◌, ◌/◌, ◌%◌, ◌^◌, ◌<◌, List, [], ◌∷◌, ◌++◌, ◌≡◌, refl, ap, ◌∙◌, arith,
  length, ◌==◌, if◌then◌else◌, replicate,
}

-- `1 << 64`
abbrev pub base : ℕ
base = 2 ^ 64

abbrev pub u128_mod : ℕ
u128_mod = 2 ^ 128

-- `x as u64`
abbrev pub as_u64 : ℕ → ℕ
as_u64 x = x % base

-- `x >> 64`, on a `u128`
abbrev pub high : ℕ → ℕ
high x = x / base

-- A `u128` sum or product.
abbrev pub u128 : ℕ → ℕ
u128 x = x % u128_mod

-- Every limb is a `u64`, as Rust's type guarantees.
abbrev pub IsLimbs : List ℕ → Type 0
IsLimbs [] = Unit {0}
IsLimbs (x ∷ xs) = (x < base) × IsLimbs xs

-- The number that the limbs stand for.
abbrev pub value : List ℕ → ℕ
value [] = 0
value (x ∷ xs) = x + base * value xs

-- The last limb is not zero: what `normalize` establishes.
abbrev pub IsTrimmed : List ℕ → Type 0
IsTrimmed [] = Unit {0}
IsTrimmed (x ∷ []) = 0 < x
IsTrimmed (x ∷ y ∷ ys) = IsTrimmed (y ∷ ys)

-- Some limbs, and the last one is not zero.
abbrev pub HasTop : List ℕ → Type 0
HasTop [] = ⊥
HasTop (x ∷ xs) = IsTrimmed (x ∷ xs)

pub HasTop-cons : (x : ℕ) (xs : List ℕ) → HasTop xs → HasTop (x ∷ xs)
HasTop-cons x (y ∷ ys) h = h
HasTop-cons x [] h = absurd h

pub HasTop-IsTrimmed : (xs : List ℕ) → HasTop xs → IsTrimmed xs
HasTop-IsTrimmed [] h = tt
HasTop-IsTrimmed (x ∷ xs) h = h

pub IsTrimmed-tail : (x : ℕ) (xs : List ℕ) → IsTrimmed (x ∷ xs) → IsTrimmed xs
IsTrimmed-tail x [] h = tt
IsTrimmed-tail x (y ∷ ys) h = h

-- `2 ^ (64 * n)`, the number of values of `n` limbs.
abbrev pub span : ℕ → ℕ
span zero = 1
span (suc n) = base * span n

-- A limb in front of limbs that are already trimmed.
abbrev pub trim_onto : ℕ → List ℕ → List ℕ
trim_onto x [] = if x == 0 then [] else x ∷ []
trim_onto x (y ∷ ys) = x ∷ y ∷ ys

-- The loop of `normalize`: `while limbs.last() == Some(&0) { limbs.pop() }`.
unfoldable pub trim : List ℕ → List ℕ
trim [] = []
trim (x ∷ xs) = trim_onto x (trim xs)

pub value-lt-span : (xs : List ℕ) → IsLimbs xs → value xs < span (length xs)
value-lt-span [] h = omega arith
value-lt-span (x ∷ xs) h = omega (arith, value-lt-span xs h.1)

pub span_pos : (n : ℕ) → 0 < span n
span_pos zero = omega arith
span_pos (suc n) = omega (arith, span_pos n)

value-trim_onto : (x : ℕ) (xs : List ℕ) → value (trim_onto x xs) ≡ x + base * value xs
value-trim_onto x [] = ground arith
value-trim_onto x (y ∷ ys) = refl

-- Trimming keeps the number.
pub value-trim : (xs : List ℕ) → value (trim xs) ≡ value xs
unfolding trim
value-trim [] = refl
value-trim (x ∷ xs) = omega (arith, value-trim_onto x (trim xs), value-trim xs)

trim_onto-IsTrimmed : (x : ℕ) (xs : List ℕ) → IsTrimmed xs → IsTrimmed (trim_onto x xs)
trim_onto-IsTrimmed x [] h = ground arith
trim_onto-IsTrimmed x (y ∷ ys) h = h

pub trim-IsTrimmed : (xs : List ℕ) → IsTrimmed (trim xs)
unfolding trim
trim-IsTrimmed [] = tt
trim-IsTrimmed (x ∷ xs) = trim_onto-IsTrimmed x (trim xs) (trim-IsTrimmed xs)

trim_onto-IsLimbs : (x : ℕ) (xs : List ℕ) → x < base → IsLimbs xs → IsLimbs (trim_onto x xs)
trim_onto-IsLimbs x [] h k = ground arith
trim_onto-IsLimbs x (y ∷ ys) h k = (h, k)

pub trim-IsLimbs : (xs : List ℕ) → IsLimbs xs → IsLimbs (trim xs)
unfolding trim
trim-IsLimbs [] h = tt
trim-IsLimbs (x ∷ xs) h = trim_onto-IsLimbs x (trim xs) h.0 (trim-IsLimbs xs h.1)

trim_onto-zeros :
    (x k : ℕ) (xs : List ℕ)
    → (n : ℕ) × (x ∷ (xs ++ replicate k 0) ≡ trim_onto x xs ++ replicate n 0)
trim_onto-zeros zero k [] = (suc k, refl)
trim_onto-zeros (suc x) k [] = (k, ground arith)
trim_onto-zeros x k (y ∷ ys) = (k, refl)

-- What is popped are zeros at the end, and no other limb.
pub trim-zeros : (xs : List ℕ) → (n : ℕ) × (xs ≡ trim xs ++ replicate n 0)
unfolding trim
trim-zeros [] = (0, refl)
trim-zeros (x ∷ xs) =
    let (k, e) = trim-zeros xs in
    let (n, f) = trim_onto-zeros x k (trim xs) in (n, ap (λ (t : List ℕ). x ∷ t) e ∙ f)
