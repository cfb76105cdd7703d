-- ===== src/Anyint/Tests.antt =====
-- Runs of the operations of `Anyint` on integers of one and two limbs.
use vif.Prelude.Digits.{BitOp, digit_ℤ, digit_op}
use vif.Prelude.Int.{negsuc}
use vif.Anyint.Twos.{twos_complement_limbs, from_twos_complement_limbs, negated}
use vif.Anyint.Bitwise.{bitwise, bitwise_lem, limbs_for}
use vif.Anyint.Convert.{from_signed, from_signed_lem}
use vif.Prelude.{ℕ, ◌-◌, ◌^◌, ◌↔◌, List, [], ◌∷◌, true, false, ◌≡◌, refl, arith, some}
use vif.Prelude.Int.{pos, ◌+ℤ◌, ◌*ℤ◌}
use vif.Anyint.Limbs.{trim}
use vif.Anyint.Numeral.{meaning}
use vif.Anyint.Parse.{Parses, parse_radix, parse_radix_lem}
use vif.Anyint.Display.{ReadsBack, parse_radix-display}
use vif.Anyint.Sign.{Anyint, IsValid, Computes, to_ℤ, add, sub, mul, neg, cmp, compare_ℤ}
use vif.Anyint.Arith.{add_lem, mul_lem, cmp_lem}
use vif.Anyint.Quotient.{div, rem, div_rem_lem, IsTruncated}
use vif.Anyint.Scale.{shl, shr, not_int, floor_div, complement_ℤ, shl_lem, shr_lem, not_int_lem}
use vif.Anyint.Range.{
  IsUnsigned, IsSigned, word_of, fits_unsigned_bits_iff, fits_signed_bits_iff, to_u64_lem,
}
use vif.Anyint.Width.{significant_bits, fits_unsigned_bits, fits_signed_bits, to_u64}
use vif.Anyint.Sum.{add_abs}

abbrev pub five : Anyint
five = record { negative = false; limbs = 5 ∷ [] }

-- - (1 + 2 * 2 ^ 64)
abbrev pub low : Anyint
low = record { negative = true; limbs = 1 ∷ 2 ∷ [] }

abbrev max_word : List ℕ
max_word = 18446744073709551615 ∷ []

pub five-IsValid : IsValid five
five-IsValid = record { words = (omega arith, tt); trimmed = omega arith; signed_zero = λ _. refl }

pub low-IsValid : IsValid low
low-IsValid = record {
  words = (omega arith, (omega arith, tt));
  trimmed = omega arith;
  signed_zero = λ e. cc;
}

sums : (to_ℤ (add five five) ≡ pos 10) × (to_ℤ (sub five (neg five)) ≡ pos 10)
unfolding add sub neg trim add_abs
sums = (refl, refl)

abbrev padded : Anyint
padded = record { negative = true; limbs = 5 ∷ 0 ∷ [] }

add_lem_example : Computes (add low five) (to_ℤ low +ℤ to_ℤ five)
add_lem_example = add_lem low five low-IsValid five-IsValid

mul_lem_example : (z : Anyint) × (mul low five ≡ some z) × Computes z (to_ℤ low *ℤ to_ℤ five)
mul_lem_example = mul_lem low five low-IsValid five-IsValid

cmp_lem_example : cmp low five ≡ compare_ℤ (to_ℤ low) (to_ℤ five)
cmp_lem_example = cmp_lem low five low-IsValid five-IsValid

div_rem_lem_example :
    (q : Anyint) × (r : Anyint) × (div low five ≡ some q)
    × (rem low five ≡ some r)
    × IsValid q
    × IsValid r
    × IsTruncated (to_ℤ low) (to_ℤ five) (to_ℤ q) (to_ℤ r)
div_rem_lem_example = div_rem_lem low five low-IsValid five-IsValid refl

shl_lem_example : Computes (shl low 70) (to_ℤ low *ℤ pos (2 ^ 70))
shl_lem_example = shl_lem low 70 low-IsValid

shr_lem_example : Computes (shr low 3) (floor_div (to_ℤ low) (2 ^ 3))
shr_lem_example = shr_lem low 3 low-IsValid

not_int_lem_example : Computes (not_int low) (complement_ℤ (to_ℤ low))
not_int_lem_example = not_int_lem low low-IsValid

fits_unsigned_bits_iff_example : (fits_unsigned_bits five 3 ≡ true) ↔ IsUnsigned 3 (to_ℤ five)
fits_unsigned_bits_iff_example = fits_unsigned_bits_iff five 3 five-IsValid

fits_signed_bits_iff_example : (fits_signed_bits low 66 ≡ true) ↔ IsSigned 66 (to_ℤ low)
fits_signed_bits_iff_example = fits_signed_bits_iff low 66 low-IsValid (omega arith)

to_u64_lem_example : to_u64 five ≡ word_of (to_ℤ five)
to_u64_lem_example = to_u64_lem five five-IsValid

-- `12_3`, and `- 2 ^ 65 - 1` printed and read back.
parse_radix_lem_example :
    Parses (meaning 10 (49 ∷ 50 ∷ 95 ∷ 51 ∷ []) 0) (parse_radix 10 (49 ∷ 50 ∷ 95 ∷ 51 ∷ []))
parse_radix_lem_example = parse_radix_lem 10 (49 ∷ 50 ∷ 95 ∷ 51 ∷ []) (omega arith) (omega arith)

parse_radix-display_example : ReadsBack low
parse_radix-display_example = parse_radix-display low low-IsValid

bitwise_lem_example :
    IsValid (bitwise BitOp.xor low five)
    × (digit_ℤ (to_ℤ (bitwise BitOp.xor low five)) 70
        ≡ digit_op BitOp.xor (digit_ℤ (to_ℤ low) 70) (digit_ℤ (to_ℤ five) 70))
bitwise_lem_example = bitwise_lem BitOp.xor low five 70 low-IsValid five-IsValid

bitwise_run : to_ℤ (bitwise BitOp.and low five) ≡ pos 5
unfolding bitwise limbs_for twos_complement_limbs from_twos_complement_limbs negated
    significant_bits trim
bitwise_run = refl

-- The least value of `i128`.
from_signed_lem_example : Computes (from_signed (negsuc (2 ^ 127 - 1))) (negsuc (2 ^ 127 - 1))
from_signed_lem_example = from_signed_lem (negsuc (2 ^ 127 - 1)) (omega arith)
