-- ===== src/Anyint/Small.antt =====
-- src/int.rs: a magnitude by one word, `mul_small_assign` and `div_rem_small`.
use vif.Prelude.{
  ℕ, ◌+◌, ◌-◌, ◌*◌, ◌/◌, ◌%◌, ◌^◌, ◌≤◌, ◌<◌, List, [], ◌∷◌, Bool, true, false, ◌≡◌, ap, arith, ◌==◌,
  ◌||◌, Bool-cases, inl, inr, if◌then◌else◌,
}
use Prim.Native.Nat.{bit_or}
use native.Mathlib.Nat.{
  mul-pos, mul-le-mul_right, div-lt_iff_lt-mul, div-add-mod, mod-lt, mul-le-mul,
}
use vif.Prelude.Bits.{bit_or-mul-pow}
use vif.Anyint.Limbs.{
  HasTop, HasTop-cons, HasTop-IsTrimmed, base, u128_mod, u128, as_u64, high, IsLimbs, IsTrimmed,
  value, trim, value-trim, trim-IsLimbs, trim-IsTrimmed,
}

-- The loop of `mul_small_assign`, and the push of the last carry.
mul_small_loop : List ℕ → ℕ → ℕ → List ℕ
mul_small_loop [] rhs carry = if carry == 0 then [] else as_u64 carry ∷ []
mul_small_loop (limb ∷ limbs) rhs carry =
    let prod = u128 (u128 (limb * rhs) + carry) in
    as_u64 prod ∷ mul_small_loop limbs rhs (high prod)

abbrev is_empty : List ℕ → Bool
is_empty [] = true
is_empty (x ∷ xs) = false

unfoldable pub mul_small : List ℕ → ℕ → List ℕ
unfolding mul_small_loop
mul_small limbs rhs = if rhs == 0 || is_empty limbs then [] else mul_small_loop limbs rhs 0

-- One round of `div_rem_small`: `cur = (rem << 64) | limb`, in a `u128`.
abbrev cur_of : ℕ → ℕ → ℕ
cur_of rem limb = bit_or (u128 (rem * 2 ^ 64)) limb

-- The loop of `div_rem_small` runs from the last limb to the first: the vector `out` and the
-- remainder `rem` after the limbs above come first.
div_small_loop : List ℕ → ℕ → List ℕ × ℕ
div_small_loop [] rhs = ([], 0)
div_small_loop (limb ∷ limbs) rhs =
    let above = div_small_loop limbs rhs in
    let cur = cur_of above.1 limb in (as_u64 (cur / rhs) ∷ above.0, cur % rhs)

-- The quotient is normalized and the remainder is a `u64`.
unfoldable pub div_rem_small : List ℕ → ℕ → List ℕ × ℕ
unfolding div_small_loop
div_rem_small limbs rhs = let r = div_small_loop limbs rhs in (trim r.0, as_u64 r.1)

-- A word times a word, plus two words, is below 2 ^ 128.
pub mul-add-lt :
    (a b c d : ℕ) → a < base → b < base → c < base → d < base → a * b + c + d < u128_mod
mul-add-lt a b c d ha hb hc hd =
    let a' : a ≤ base - 1 = omega arith in
    let b' : b ≤ base - 1 = omega arith in omega (arith, mul-le-mul a' b')

cur_of-sum : (rem limb : ℕ) → rem < base → limb < base → cur_of rem limb ≡ rem * base + limb
cur_of-sum rem limb hr hl =
    let fits : u128 (rem * 2 ^ 64) ≡ rem * 2 ^ 64 = omega arith in
    rw fits (bit_or-mul-pow 64 rem limb hl)

-- One round of long division by a word.
div_round :
    (q rem limb rhs cur : ℕ)
    → rem < rhs
    → rhs < base
    → limb < base
    → cur ≡ rem * base + limb
    → ((as_u64 (cur / rhs) + base * q) * rhs + cur % rhs ≡ limb + base * (q * rhs + rem))
      × (cur % rhs < rhs)
div_round q rem limb rhs cur hr hb hl e =
    let whole = div-add-mod cur rhs in
    let rem' : rem + 1 ≤ rhs = omega arith in
    let room : (rem + 1) * base ≤ rhs * base = mul-le-mul_right base rem' in
    let below : cur / rhs < base =
      (div-lt_iff_lt-mul {k = rhs} {x = cur} {y = base} (omega arith)).1 (omega arith) in
    let word : as_u64 (cur / rhs) ≡ cur / rhs = omega arith in
    (rw word (omega arith), mod-lt cur (omega arith))

mul_small_loop_lem :
    (limbs : List ℕ) (rhs carry : ℕ)
    → IsLimbs limbs
    → rhs < base
    → carry < base
    → (value (mul_small_loop limbs rhs carry) ≡ value limbs * rhs + carry)
      × IsLimbs (mul_small_loop limbs rhs carry)
unfolding mul_small_loop
mul_small_loop_lem [] rhs carry il hr hc = ground arith
mul_small_loop_lem (x ∷ xs) rhs carry il hr hc =
    let prod = u128 (u128 (x * rhs) + carry) in
    let bound = mul-add-lt x rhs carry 0 il.0 hr hc (omega arith) in
    let ih = mul_small_loop_lem xs rhs (high prod) il.1 hr (omega arith) in
    (omega (arith, ih.0), (omega arith, ih.1))

-- Multiplication by a word.
pub value-mul_small :
    (limbs : List ℕ) (rhs : ℕ)
    → IsLimbs limbs
    → rhs < base
    → (value (mul_small limbs rhs) ≡ value limbs * rhs) × IsLimbs (mul_small limbs rhs)
unfolding mul_small
value-mul_small [] rhs il hr = ground arith
value-mul_small (x ∷ xs) rhs il hr = elim (Bool-cases (rhs == 0)) [
  | inl z ↦ let e : rhs ≡ 0 = ground arith in rw (z, e) (omega arith, tt)
  | inr nz ↦
      let r = mul_small_loop_lem (x ∷ xs) rhs 0 il hr (omega arith) in
      rw nz (omega (arith, r.0), r.1)
]

div_small_loop_lem :
    (limbs : List ℕ) (rhs : ℕ)
    → IsLimbs limbs
    → 0 < rhs
    → rhs < base
    → (value (div_small_loop limbs rhs).0 * rhs + (div_small_loop limbs rhs).1 ≡ value limbs)
      × ((div_small_loop limbs rhs).1 < rhs)
      × IsLimbs (div_small_loop limbs rhs).0
unfolding div_small_loop
div_small_loop_lem [] rhs il hp hr = (omega arith, hp, tt)
div_small_loop_lem (x ∷ xs) rhs il hp hr =
    let ih = div_small_loop_lem xs rhs il.1 hp hr in
    let below = ih.1 in
    let cur = cur_of-sum (div_small_loop xs rhs).1 x (omega arith) il.0 in
    let r =
      div_round (value (div_small_loop xs rhs).0) (div_small_loop xs rhs).1 x rhs _ below hr il.0
        cur in
    (omega (arith, r.0, ih.0), r.1, (omega arith, ih.2))

-- Division by a word is Euclidean division.
pub div_rem_small_lem :
    (limbs : List ℕ) (rhs : ℕ)
    → IsLimbs limbs
    → 0 < rhs
    → rhs < base
    → (value (div_rem_small limbs rhs).0 * rhs + (div_rem_small limbs rhs).1 ≡ value limbs)
      × ((div_rem_small limbs rhs).1 < rhs)
      × IsLimbs (div_rem_small limbs rhs).0
      × IsTrimmed (div_rem_small limbs rhs).0
unfolding div_rem_small
div_rem_small_lem limbs rhs il hp hr =
    let r = div_small_loop_lem limbs rhs il hp hr in
    (
      omega (arith, r.0, r.1, ap (λ (t : ℕ). t * rhs) (value-trim (div_small_loop limbs rhs).0)),
      omega (arith, r.1),
      trim-IsLimbs (div_small_loop limbs rhs).0 r.2,
      trim-IsTrimmed (div_small_loop limbs rhs).0,
    )

mul_small_loop-HasTop :
    (limbs : List ℕ) (rhs carry : ℕ)
    → HasTop limbs
    → IsLimbs limbs
    → 0 < rhs
    → rhs < base
    → carry < base
    → HasTop (mul_small_loop limbs rhs carry)
unfolding mul_small_loop
mul_small_loop-HasTop [] rhs carry t il hp hr hc = absurd t
mul_small_loop-HasTop (x ∷ []) rhs carry t il hp hr hc =
    let bound = mul-add-lt x rhs carry 0 il.0 hr hc (omega arith) in
    let some_product : 0 < x * rhs = mul-pos t hp in
    elim (Bool-cases (high (u128 (u128 (x * rhs) + carry)) == 0)) [
      | inl z ↦
          let e : high (u128 (u128 (x * rhs) + carry)) ≡ 0 = ground arith in rw z (omega arith)
      | inr nz ↦
          let e : 0 < high (u128 (u128 (x * rhs) + carry)) = ground arith in rw nz (omega arith)
    ]
mul_small_loop-HasTop (x ∷ y ∷ ys) rhs carry t il hp hr hc =
    let bound = mul-add-lt x rhs carry 0 il.0 hr hc (omega arith) in
    let next = high (u128 (u128 (x * rhs) + carry)) in
    let next_word : next < base = omega arith in
    HasTop-cons (as_u64 (u128 (u128 (x * rhs) + carry))) (mul_small_loop (y ∷ ys) rhs next)
      (mul_small_loop-HasTop (y ∷ ys) rhs next t il.1 hp hr next_word)

-- A product with a word that is not zero has no zero limb at its end.
pub mul_small-IsTrimmed :
    (limbs : List ℕ) (rhs : ℕ)
    → IsTrimmed limbs
    → IsLimbs limbs
    → 0 < rhs
    → rhs < base
    → IsTrimmed (mul_small limbs rhs)
unfolding mul_small
mul_small-IsTrimmed [] rhs t il hp hr = ground arith
mul_small-IsTrimmed (x ∷ xs) rhs t il hp hr =
    let nz : (rhs == 0) ≡ false = ground arith in
    rw nz (
      HasTop-IsTrimmed (mul_small_loop (x ∷ xs) rhs 0)
        (mul_small_loop-HasTop (x ∷ xs) rhs 0 t il hp hr (omega arith)))
