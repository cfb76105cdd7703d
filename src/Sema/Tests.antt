-- ===== src/Sema/Tests.antt =====
-- Runs of the compile-time operations on machine types.
use vif.Prelude.{◌<◌, ◌^◌, true, false, ◌≡◌, ◌↔◌, refl, arith, none, some}
use vif.Prelude.Int.{◌+ℤ◌, ◌≤ℤ◌}
use vif.Anyint.Sign.{Anyint, to_ℤ}
use vif.Anyint.Tests.{five, low, five-IsValid, low-IsValid}
use vif.Sema.Types.{Ty, int_shape, type_bit_size}
use vif.Sema.Wrap.{wrap_int_value, wrap_int_value_lem, IsWrapped}
use vif.Sema.Comptime.{ArithOp, CmpOp, fold_cmp, ShiftOp, fold_shift, Outcome}
use vif.Sema.Wrap.{IsInRange}
use vif.Prelude.Digits.{BitOp, digit_ℤ, digit_op}
use vif.Anyint.Sign.{IsValid}
use vif.Sema.Comptime.{fold_bitwise}
use vif.Sema.Bitwise.{fold_bitwise-IsInRange}
use vif.Sema.Fold.{
  exact, Wraps, Escapes, Holds, fold_arith-Wraps, fold_arith-Escapes, fold_cmp_iff,
  fold_cmp_equality_wrong,
}
use vif.Sema.Shifts.{IsShifted, fold_shift_lem, fold_shift_panics}

int_shape_i8 : int_shape 64 (Ty.int true 8) ≡ some (true, 8)
unfolding int_shape
int_shape_i8 = refl

type_bit_size_i128 : type_bit_size none (Ty.int true 128) ≡ some 128
unfolding type_bit_size
type_bit_size_i128 = refl

-- - 2 ^ 65 - 1 is - 1 in 8 bits.
wrap_int_value_lem_example :
    (w : Anyint) × (wrap_int_value 64 (Ty.int true 8) low ≡ some w) × IsWrapped true 8 (to_ℤ low) w
wrap_int_value_lem_example =
    wrap_int_value_lem 64 (Ty.int true 8) low true 8 low-IsValid int_shape_i8 (λ _. omega arith)

fold_arith-Wraps_example : Wraps ArithOp.mul 64 (Ty.int true 8) true 8 low five
fold_arith-Wraps_example =
    fold_arith-Wraps 64 (Ty.int true 8) ArithOp.mul low five true 8 tt low-IsValid five-IsValid
      int_shape_i8 (λ _. omega arith)

too_large : ¬ IsInRange false 3 (exact ArithOp.add_sat (to_ℤ five) (to_ℤ five))
unfolding ◌+ℤ◌
too_large (lo, hi) = let less : 10 < 2 ^ 3 = hi in omega arith

fold_arith-Escapes_example : Escapes ArithOp.add_sat 64 (Ty.int false 3) false 3 five five
fold_arith-Escapes_example =
    fold_arith-Escapes 64 (Ty.int false 3) ArithOp.add_sat five five false 3 tt five-IsValid
      five-IsValid too_large

fold_cmp_iff_example :
    (fold_cmp CmpOp.lt_op low five ≡ true) ↔ Holds CmpOp.lt_op (to_ℤ low) (to_ℤ five)
fold_cmp_iff_example = fold_cmp_iff CmpOp.lt_op low five tt low-IsValid five-IsValid

fold_cmp_equality_wrong_example :
    ((fold_cmp CmpOp.eq_op five low ≡ true) ↔ (to_ℤ low ≤ℤ to_ℤ five))
    × ((fold_cmp CmpOp.neq_op five low ≡ true) ↔ (to_ℤ low ≤ℤ to_ℤ five))
fold_cmp_equality_wrong_example = fold_cmp_equality_wrong five low five-IsValid low-IsValid

fold_shift_lem_example :
    IsShifted false ShiftOp.shr
      (to_ℤ low)
      5
      (fold_shift none (Ty.int true 128) ShiftOp.shr low five)
fold_shift_lem_example =
    fold_shift_lem none (Ty.int true 128) ShiftOp.shr low five 5 128 low-IsValid five-IsValid refl
      (omega arith) type_bit_size_i128

fold_shift_panics_example : fold_shift none Ty.usize ShiftOp.shl low five ≡ Outcome.panic
fold_shift_panics_example = fold_shift_panics none ShiftOp.shl low five 5 five-IsValid refl

-- At `i128`.
five-IsInRange : IsInRange true 128 (to_ℤ five)
five-IsInRange = omega arith

low-IsInRange : IsInRange true 128 (to_ℤ low)
low-IsInRange = omega arith

fold_bitwise-IsInRange_example :
    IsValid (fold_bitwise BitOp.xor low five)
    × IsInRange true 128 (to_ℤ (fold_bitwise BitOp.xor low five))
    × (digit_ℤ (to_ℤ (fold_bitwise BitOp.xor low five)) 65
        ≡ digit_op BitOp.xor (digit_ℤ (to_ℤ low) 65) (digit_ℤ (to_ℤ five) 65))
fold_bitwise-IsInRange_example =
    fold_bitwise-IsInRange BitOp.xor low five true 128 65 low-IsValid five-IsValid low-IsInRange
      five-IsInRange
