-- ===== src/Sema/Comptime.antt =====
-- src/compile_unit/sema.rs: operations on integers that are known at compile time, in
-- `analyze_arithmetic_op`, `analyze_bitwise_op`, `analyze_bitwise_not_op` and
-- `analyze_comparaison_op`. A failed assertion or an `unreachable!` is `panic`.
use vif.Prelude.{
  ℕ, ◌^◌, ◌-◌, Bool, true, false, not, ◌&&◌, Option, none, some, Ordering, if◌then◌else◌, leb,
}
use Prim.Native.Nat.{lt, gt}
use vif.Anyint.Scale
use vif.Prelude.Digits.{BitOp}
use vif.Anyint.Bitwise.{bitwise}
use vif.Anyint.Sign
use vif.Anyint.Sign.{Anyint}
use vif.Anyint.Quotient
use vif.Anyint.Width
use vif.Sema.Types.{Ty, anyint}
use vif.Sema.Types
use vif.Sema.Wrap.{wrap_int_value, ◌>>=◌}

-- The opcodes of `analyze_arithmetic_op` on integers.
pub data ArithOp : Type 0 where
  add add_sat sub sub_sat mul mul_sat div rem : ArithOp

-- The two integers of the operands, of the common type `ty`, give the integer of the result.
unfoldable pub fold_arith : ℕ → Ty → ArithOp → Anyint → Anyint → Option Anyint
fold_arith ptr_width ty add lhs rhs = wrap_int_value ptr_width ty (Sign.add lhs rhs)
fold_arith ptr_width ty add_sat lhs rhs = some (Sign.add lhs rhs)
fold_arith ptr_width ty sub lhs rhs = wrap_int_value ptr_width ty (Sign.sub lhs rhs)
fold_arith ptr_width ty sub_sat lhs rhs = some (Sign.sub lhs rhs)
fold_arith ptr_width ty mul lhs rhs = do
  product ← Sign.mul lhs rhs
  wrap_int_value ptr_width ty product
fold_arith ptr_width ty mul_sat lhs rhs = Sign.mul lhs rhs
fold_arith ptr_width ty div lhs rhs = Quotient.div lhs rhs
fold_arith ptr_width ty rem lhs rhs = Quotient.rem lhs rhs

pub data ShiftOp : Type 0 where
  shl shl_sat shl_wrap shr shr_sat shr_wrap : ShiftOp

-- `matches!(inst, ShlWrap { .. })` and the same of `ShrWrap`.
abbrev pub is_wrap : ShiftOp → Bool
is_wrap shl_wrap = true
is_wrap shr_wrap = true
is_wrap _ = false

abbrev pub shift_by : ShiftOp → Anyint → ℕ → Anyint
shift_by shl x shift = Scale.shl x shift
shift_by shl_sat x shift = Scale.shl x shift
shift_by shl_wrap x shift = Scale.shl x shift
shift_by shr x shift = Scale.shr x shift
shift_by shr_sat x shift = Scale.shr x shift
shift_by shr_wrap x shift = Scale.shr x shift

pub data Diag : Type 0 where
  negative_shift shift_too_large : Diag

pub data Outcome : Type 0 where
  done : Anyint → Outcome
  failed : Diag → Outcome
  panic : Outcome

-- `rhs.to_u64().unwrap_or(u64::MAX)`
abbrev pub shift_amount : Option ℕ → ℕ
shift_amount none = 2 ^ 64 - 1
shift_amount (some n) = n

-- The check of the width, for a type that is not `anyint`.
abbrev pub checked_shift : ShiftOp → Anyint → ℕ → Option ℕ → Outcome
checked_shift op lhs shift none = panic
checked_shift op lhs shift (some bit_width) =
    if leb bit_width shift && not (is_wrap op)
    then failed shift_too_large
    else done (shift_by op lhs shift)

abbrev pub sized_shift : Option ℕ → Ty → ShiftOp → Anyint → ℕ → Outcome
sized_shift packed_bits anyint op lhs shift = done (shift_by op lhs shift)
sized_shift packed_bits ty op lhs shift =
    checked_shift op lhs shift (Types.type_bit_size packed_bits ty)

-- `packed_bits` is the storage size of the type, if it is a packed structure.
unfoldable pub fold_shift : Option ℕ → Ty → ShiftOp → Anyint → Anyint → Outcome
fold_shift packed_bits ty op lhs rhs =
    if Sign.is_negative rhs
    then failed negative_shift
    else sized_shift packed_bits ty op lhs (shift_amount (Width.to_u64 rhs))

-- `&`, `|` and `^` of two integers.
unfoldable pub fold_bitwise : BitOp → Anyint → Anyint → Anyint
fold_bitwise op lhs rhs = bitwise op lhs rhs

-- `!` of an integer.
unfoldable pub fold_not : Anyint → Anyint
fold_not value = Scale.not_int value

pub data CmpOp : Type 0 where
  eq_op neq_op lt_op lte_op gt_op gte_op : CmpOp

abbrev pub is_lt : Ordering → Bool
is_lt lt = true
is_lt _ = false

abbrev pub is_gt : Ordering → Bool
is_gt gt = true
is_gt _ = false

-- `cmp_comptime`, on the order of its two arguments.
unfoldable pub cmp_comptime : CmpOp → Ordering → Bool
cmp_comptime eq_op order = not (is_lt order)
cmp_comptime neq_op order = not (is_lt order)
cmp_comptime lt_op order = is_lt order
cmp_comptime lte_op order = not (is_gt order)
cmp_comptime gt_op order = is_gt order
cmp_comptime gte_op order = not (is_lt order)

unfoldable pub fold_cmp : CmpOp → Anyint → Anyint → Bool
fold_cmp op lhs rhs = cmp_comptime op (Sign.cmp lhs rhs)
