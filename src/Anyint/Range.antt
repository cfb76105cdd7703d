-- ===== src/Anyint/Range.antt =====
-- src/int.rs: what `fits_unsigned_bits`, `fits_signed_bits` and `to_u64` answer, for the integers.
use vif.Prelude.{
  ℕ, zero, suc, ◌-◌, ◌^◌, ◌≤◌, ◌<◌, List, [], ◌∷◌, Bool, true, false, ◌≡◌, refl, sym, arith,
  compare, if◌then◌else◌, Option, none, some, ltb, ◌↔◌, leb→le, ltb→lt,
}
use vif.Prelude.Powers.{pow_pos}
use vif.Prelude.Int.{ℤ, pos, negsuc, ◌≤ℤ◌, ◌<ℤ◌}
use vif.Anyint.Limbs.{base, value}
use vif.Anyint.Compare.{value_pos_of_IsTrimmed}
use vif.Anyint.Arith.{minus_parts, negative_pos}
use vif.Anyint.Sign.{signed, Anyint, IsValid, to_ℤ, minus}
use vif.Anyint.Width.{
  significant_bits_lem, abs_cmp_pow2_lem, fits_unsigned_bits, fits_signed_bits, to_u64,
  is_not_greater,
}

-- The integers that a `w`-bit word stands for, read as unsigned and as signed.
abbrev pub IsUnsigned : ℕ → ℤ → Type 0
IsUnsigned bits z = (pos 0 ≤ℤ z) × (z <ℤ pos (2 ^ bits))

abbrev pub IsSigned : ℕ → ℤ → Type 0
IsSigned bits z = (minus (2 ^ (bits - 1)) ≤ℤ z) × (z <ℤ pos (2 ^ (bits - 1)))

fits-IsUnsigned_fields :
    (b : Bool) (xs : List ℕ) (bits : ℕ)
    → IsValid (record { negative = b; limbs = xs })
    → (fits_unsigned_bits (record { negative = b; limbs = xs }) bits ≡ true)
      ↔ IsUnsigned bits (signed b (value xs))
unfolding fits_unsigned_bits
fits-IsUnsigned_fields true xs bits v =
    let below = negative_pos xs v.trimmed v.signed_zero in
    (λ h. cc, λ h. absurd (omega (arith, h.0, minus_parts (value xs))))
fits-IsUnsigned_fields false xs bits v =
    let s = significant_bits_lem xs bits v.words v.trimmed in
    (λ h. (omega arith, omega (arith, s.0 (leb→le _ _ h))), λ h. ground (arith, s.1 (omega arith)))

-- An integer fits `bits` unsigned bits exactly when it is from 0 to 2 ^ bits - 1.
pub fits_unsigned_bits_iff :
    (x : Anyint) (bits : ℕ)
    → IsValid x
    → (fits_unsigned_bits x bits ≡ true) ↔ IsUnsigned bits (to_ℤ x)
fits_unsigned_bits_iff x bits v = fits-IsUnsigned_fields x.negative x.limbs bits v

is_not_greater_iff : (a b : ℕ) → (is_not_greater (compare a b) ≡ true) ↔ (a ≤ b)
is_not_greater_iff a b = ground arith

fits-IsSigned_fields :
    (b : Bool) (xs : List ℕ) (bits : ℕ)
    → IsValid (record { negative = b; limbs = xs })
    → 0 < bits
    → (fits_signed_bits (record { negative = b; limbs = xs }) bits ≡ true)
      ↔ IsSigned bits (signed b (value xs))
unfolding fits_signed_bits
fits-IsSigned_fields true xs bits v pos_bits =
    let c = abs_cmp_pow2_lem xs (bits - 1) v.words v.trimmed in
    let below = negative_pos xs v.trimmed v.signed_zero in
    let m = minus_parts (value xs) in
    let n = minus_parts (2 ^ (bits - 1)) in
    rw c (
      λ h. (
        omega (arith, m, n, (is_not_greater_iff (value xs) (2 ^ (bits - 1))).0 h),
        omega (arith, m, pow_pos (bits - 1)),
      ),
      λ h. (is_not_greater_iff (value xs) (2 ^ (bits - 1))).1 (omega (arith, m, n, h.0)),
    )
fits-IsSigned_fields false xs bits v pos_bits =
    let s = significant_bits_lem xs (bits - 1) v.words v.trimmed in
    (
      λ h. (
        omega (arith, minus_parts (2 ^ (bits - 1))),
        omega (arith, s.0 (omega (arith, ltb→lt _ _ h))),
      ),
      λ h. ground (arith, s.1 (omega arith)),
    )

-- An integer fits `bits` signed bits exactly when it is from -2 ^ (bits - 1) to 2 ^ (bits - 1) - 1.
pub fits_signed_bits_iff :
    (x : Anyint) (bits : ℕ)
    → IsValid x
    → 0 < bits
    → (fits_signed_bits x bits ≡ true) ↔ IsSigned bits (to_ℤ x)
fits_signed_bits_iff x bits v h = fits-IsSigned_fields x.negative x.limbs bits v h

-- The word that an integer from 0 to 2 ^ 64 - 1 stands for, and nothing for any other.
abbrev pub word_of : ℤ → Option ℕ
word_of (pos n) = if ltb n base then some n else none
word_of (negsuc n) = none

word_of-minus : (n : ℕ) → 0 < n → word_of (minus n) ≡ none
word_of-minus zero h = elim h [ ]
word_of-minus (suc n) h = refl

to_u64_fields :
    (b : Bool) (xs : List ℕ)
    → IsValid (record { negative = b; limbs = xs })
    → to_u64 (record { negative = b; limbs = xs }) ≡ word_of (signed b (value xs))
unfolding to_u64
to_u64_fields true xs v = sym (word_of-minus (value xs) (negative_pos xs v.trimmed v.signed_zero))
to_u64_fields false [] v = refl
to_u64_fields false (x ∷ []) v = let h = v.words.0 in ground arith
to_u64_fields false (x ∷ y ∷ ys) v = let h = value_pos_of_IsTrimmed y ys v.trimmed in ground arith

-- `to_u64` returns the integer when it is a word, and `None` for every other one.
pub to_u64_lem : (x : Anyint) → IsValid x → to_u64 x ≡ word_of (to_ℤ x)
to_u64_lem x v = to_u64_fields x.negative x.limbs v
