-- ===== src/Anyint/Bitwise.antt =====
-- src/int.rs: `&`, `|` and `^`, through two's complement (`bitwise`).
use vif.Prelude.{
  ◌⊎◌, ℕ, zero, suc, ◌+◌, ◌-◌, ◌*◌, ◌/◌, ◌^◌, ◌≤◌, ◌<◌, List, [], ◌∷◌, true, ◌≡◌, refl, sym, ap,
  ap₂, ◌∙◌, arith, max, min, leb, length, Bool-cases, inl, inr,
}
use native.Mathlib.Nat.{pow-suc}
use vif.Prelude.Powers.{pow_le_pow}
use vif.Prelude.Digits.{
  bit_op-zero, digit, digit_ℤ, digit_above, digit_complement, BitOp, bit_op, digit_op, digit-bit_op,
  bit_op_lt, bit_op-split,
}
use vif.Anyint.Limbs.{IsTrimmed, IsLimbs, value, span, value-lt-span}
use vif.Anyint.Shift.{span-pow}
use vif.Anyint.Sign.{Anyint, IsValid, to_ℤ, signed, Computes}
use vif.Anyint.Width.{significant_bits, significant_bits_lem, value-ge-span, span_mono}
use vif.Anyint.Twos.{
  twos_complement_limbs, from_twos_complement_limbs, signed_below, twos_complement_limbs_lem,
  from_twos_complement_limbs_lem,
}

-- `lhs.into_iter().zip(rhs).map(|(l, r)| op(l, r))`
zip_op : BitOp → List ℕ → List ℕ → List ℕ
zip_op op [] ys = []
zip_op op (x ∷ xs) [] = []
zip_op op (x ∷ xs) (y ∷ ys) = bit_op op x y ∷ zip_op op xs ys

-- Enough limbs for the digits of both operands, and two more.
unfoldable pub limbs_for : Anyint → Anyint → ℕ
limbs_for x y = max ((max (significant_bits x.limbs) (significant_bits y.limbs) + 2 + 63) / 64) 1

unfoldable pub bitwise : BitOp → Anyint → Anyint → Anyint
unfolding zip_op
bitwise op x y =
    let len = limbs_for x y in
    from_twos_complement_limbs
      (zip_op op (twos_complement_limbs x len) (twos_complement_limbs y len))

zip_op_lem :
    (op : BitOp) (xs ys : List ℕ)
    → IsLimbs xs
    → IsLimbs ys
    → length xs ≡ length ys
    → (value (zip_op op xs ys) ≡ bit_op op (value xs) (value ys))
      × IsLimbs (zip_op op xs ys)
      × (length (zip_op op xs ys) ≡ length xs)
unfolding zip_op
zip_op_lem op [] [] il jl e = (sym (bit_op-zero op), tt, refl)
zip_op_lem op [] (y ∷ ys) il jl e = absurd (omega arith)
zip_op_lem op (x ∷ xs) [] il jl e = absurd (omega arith)
zip_op_lem op (x ∷ xs) (y ∷ ys) il jl e =
    let ih = zip_op_lem op xs ys il.1 jl.1 (omega arith) in
    let split = bit_op-split op 64 x y (value xs) (value ys) il.0 jl.0 in
    (omega (arith, ih.0, split), (bit_op_lt op 64 x y il.0 jl.0, ih.1), omega (arith, ih.2))

clamp_cases : (k w : ℕ) → ((k ≤ w) × (min k w ≡ k)) ⊎ ((w < k) × (min k w ≡ w))
clamp_cases k w = elim (Bool-cases (leb k w)) [
  | inl e ↦ let h : k ≤ w = ground arith in inl (h, omega arith)
  | inr e ↦ let h : w < k = ground arith in inr (h, omega arith)
]

digit_ℤ-minus : (m k : ℕ) → 0 < m → digit_ℤ (signed true m) k ≡ 1 - digit (m - 1) k
digit_ℤ-minus zero k h = elim h [ ]
digit_ℤ-minus (suc m) k h = ap (λ (n : ℕ). 1 - digit n k) (omega arith)

low_digit : (w v k : ℕ) → v < 2 ^ w → digit v k ≡ digit v (min k w)
low_digit w v k h = elim (clamp_cases k w) [
  | inl (le, e) ↦ rw e
  | inr (lt, e) ↦ digit_above w v k h (omega arith) ∙ sym (rw e (digit_above w v w h (omega arith)))
]

high_digit :
    (w v k : ℕ) → v < 2 ^ suc w → 2 ^ w ≤ v → 1 - digit (2 ^ suc w - 1 - v) k ≡ digit v (min k w)
high_digit w v k h top =
    let small : 2 ^ suc w - 1 - v < 2 ^ w = omega (arith, pow-suc 2 w) in
    let at_top = digit_complement (suc w) v w h (omega arith) in
    let above = digit_above w (2 ^ suc w - 1 - v) w small (omega arith) in
    elim (clamp_cases k w) [
      | inl (le, e) ↦ rw e (omega (arith, digit_complement (suc w) v k h (omega arith)))
      | inr (lt, e) ↦
          rw e
            (omega (arith, digit_above w (2 ^ suc w - 1 - v) k small (omega arith), above, at_top))
    ]

-- The digit of an integer of `suc w` digits in two's complement.
digit_ℤ-signed_below :
    (w v k : ℕ) → v < 2 ^ suc w → digit_ℤ (signed_below (2 ^ suc w) v) k ≡ digit v (min k w)
digit_ℤ-signed_below w v k h = elim (Bool-cases (leb (2 ^ suc w) (2 * v))) [
  | inl e ↦
      let top : 2 ^ w ≤ v = ground (arith, pow-suc 2 w) in
      let same : 2 ^ suc w - v - 1 ≡ 2 ^ suc w - 1 - v = omega arith in
      rw e (
        digit_ℤ-minus (2 ^ suc w - v) k (omega arith)
        ∙ ap (λ (n : ℕ). 1 - digit n k) same
        ∙ high_digit w v k h top)
  | inr e ↦ let low : v < 2 ^ w = ground (arith, pow-suc 2 w) in rw e (low_digit w v k low)
]

-- The limbs are enough for an operand.
length_fits : (xs : List ℕ) (len : ℕ) → IsTrimmed xs → value xs < span len → length xs ≤ len
length_fits [] len t h = omega arith
length_fits (x ∷ xs) len t h = elim (Bool-cases (leb (suc (length xs)) len)) [
  | inl e ↦ ground arith
  | inr e ↦
      let long : len ≤ length xs = ground arith in
      absurd (omega (arith, value-ge-span x xs t, span_mono len (length xs) long))
]

room_lem :
    (x : Anyint) (len : ℕ)
    → IsValid x
    → significant_bits x.limbs + 2 ≤ 64 * len
    → (length x.limbs ≤ len) × (2 * value x.limbs < span len)
room_lem x len v h =
    let bits = significant_bits x.limbs in
    let below = (significant_bits_lem x.limbs bits v.words v.trimmed).0 (omega arith) in
    let room : 2 * value x.limbs < span len = omega (
      arith,
      below,
      pow-suc 2 bits,
      pow-suc 2 (suc bits),
      pow_le_pow (suc (suc bits)) (64 * len) (omega arith),
      span-pow len,
    ) in
    (length_fits x.limbs len v.trimmed (omega arith), room)

limbs_for_lem :
    (x y : Anyint)
    → (significant_bits x.limbs + 2 ≤ 64 * limbs_for x y)
      × (significant_bits y.limbs + 2 ≤ 64 * limbs_for x y)
      × (0 < limbs_for x y)
unfolding limbs_for
limbs_for_lem x y = omega arith

-- The operation on two numbers in two's complement of `suc w` digits.
digit_ℤ-bit_op :
    (op : BitOp) (w a b k : ℕ)
    → a < 2 ^ suc w
    → b < 2 ^ suc w
    → digit_ℤ (signed_below (2 ^ suc w) (bit_op op a b)) k
      ≡ digit_op op
          (digit_ℤ (signed_below (2 ^ suc w) a) k)
          (digit_ℤ (signed_below (2 ^ suc w) b) k)
digit_ℤ-bit_op op w a b k ha hb =
    digit_ℤ-signed_below w (bit_op op a b) k (bit_op_lt op (suc w) a b ha hb)
    ∙ digit-bit_op op a b (min k w)
    ∙ sym (ap₂ (digit_op op) (digit_ℤ-signed_below w a k ha) (digit_ℤ-signed_below w b k hb))

read_back :
    (limbs : List ℕ)
    → IsLimbs limbs
    → 0 < length limbs
    → Computes (from_twos_complement_limbs limbs) (signed_below (span (length limbs)) (value limbs))
read_back [] il h = elim h [ ]
read_back (x ∷ xs) il h = from_twos_complement_limbs_lem x xs il

-- On enough limbs, what the operation computes.
bitwise_on :
    (op : BitOp) (x y : Anyint) (len k : ℕ)
    → IsValid x
    → IsValid y
    → significant_bits x.limbs + 2 ≤ 64 * suc len
    → significant_bits y.limbs + 2 ≤ 64 * suc len
    → let r =
        from_twos_complement_limbs
          (zip_op op (twos_complement_limbs x (suc len)) (twos_complement_limbs y (suc len))) in
      IsValid r × (digit_ℤ (to_ℤ r) k ≡ digit_op op (digit_ℤ (to_ℤ x) k) (digit_ℤ (to_ℤ y) k))
bitwise_on op x y len k vx vy hx hy =
    let rx = room_lem x (suc len) vx hx in
    let ry = room_lem y (suc len) vy hy in
    let tx = twos_complement_limbs_lem x (suc len) vx rx.0 rx.1 in
    let ty = twos_complement_limbs_lem y (suc len) vy ry.0 ry.1 in
    let xs = twos_complement_limbs x (suc len) in
    let ys = twos_complement_limbs y (suc len) in
    let z = zip_op_lem op xs ys tx.1 ty.1 (tx.2 ∙ sym ty.2) in
    let r = read_back (zip_op op xs ys) z.1 (omega (arith, z.2, tx.2)) in
    let s : span (suc len) ≡ 2 ^ suc (64 * len + 63) =
      span-pow (suc len) ∙ ap (λ (n : ℕ). 2 ^ n) (omega arith) in
    let number = r.1 ∙ ap₂ signed_below (ap span (z.2 ∙ tx.2) ∙ s) z.0 in
    let ax = sym (ap (λ n. signed_below n (value xs)) s) ∙ tx.0 in
    let ay = sym (ap (λ n. signed_below n (value ys)) s) ∙ ty.0 in
    let bx = value-lt-span xs tx.1 in
    let by_ = value-lt-span ys ty.1 in
    (
      r.0,
      ap (λ n. digit_ℤ n k) number
          ∙ digit_ℤ-bit_op op (64 * len + 63) (value xs) (value ys) k
              (omega (arith, bx, ap span tx.2, s)) (omega (arith, by_, ap span ty.2, s))
          ∙ ap₂ (λ a b. digit_op op (digit_ℤ a k) (digit_ℤ b k)) ax ay,
    )

bitwise_len :
    (op : BitOp) (x y : Anyint) (len k : ℕ)
    → IsValid x
    → IsValid y
    → 0 < len
    → significant_bits x.limbs + 2 ≤ 64 * len
    → significant_bits y.limbs + 2 ≤ 64 * len
    → let r =
        from_twos_complement_limbs
          (zip_op op (twos_complement_limbs x len) (twos_complement_limbs y len)) in
      IsValid r × (digit_ℤ (to_ℤ r) k ≡ digit_op op (digit_ℤ (to_ℤ x) k) (digit_ℤ (to_ℤ y) k))
bitwise_len op x y zero k vx vy h hx hy = elim h [ ]
bitwise_len op x y (suc len) k vx vy h hx hy = bitwise_on op x y len k vx vy hx hy

-- `&`, `|` and `^` of two valid integers are valid, and each digit of the result, in two's
-- complement of unbounded width, is the operation on the digits of the operands.
pub bitwise_lem :
    (op : BitOp) (x y : Anyint) (k : ℕ)
    → IsValid x
    → IsValid y
    → IsValid (bitwise op x y)
      × (digit_ℤ (to_ℤ (bitwise op x y)) k ≡ digit_op op (digit_ℤ (to_ℤ x) k) (digit_ℤ (to_ℤ y) k))
unfolding bitwise
bitwise_lem op x y k vx vy =
    let l = limbs_for_lem x y in bitwise_len op x y (limbs_for x y) k vx vy l.2 l.0 l.1
