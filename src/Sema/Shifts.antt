-- ===== src/Sema/Shifts.antt =====
-- What the compile-time shifts return, against the integers.
use vif.Prelude.{
  ℕ, ◌^◌, ◌<◌, Bool, true, false, not, ◌&&◌, ◌≡◌, refl, ap, ◌∙◌, arith, Option, some, leb,
  if◌then◌else◌,
}
use vif.Prelude.Int.{ℤ, pos, ◌*ℤ◌}
use vif.Anyint.Limbs.{base}
use vif.Anyint.Sign.{Anyint, IsValid, to_ℤ, is_negative, Computes}
use vif.Anyint.Natural.{Natural-of_to_ℤ}
use vif.Anyint.Range.{to_u64_lem, word_of}
use vif.Anyint.Width.{to_u64}
use vif.Anyint.Scale.{floor_div, shl_lem, shr_lem}
use vif.Sema.Types.{Ty, type_bit_size}
use vif.Sema.Comptime.{
  sized_shift, ShiftOp, fold_shift, checked_shift, shift_by, shift_amount, is_wrap, Outcome, Diag,
}

-- The exact result of a shift.
abbrev pub shifted : ShiftOp → ℤ → ℕ → ℤ
shifted ShiftOp.shl a n = a *ℤ pos (2 ^ n)
shifted ShiftOp.shl_sat a n = a *ℤ pos (2 ^ n)
shifted ShiftOp.shl_wrap a n = a *ℤ pos (2 ^ n)
shifted ShiftOp.shr a n = floor_div a (2 ^ n)
shifted ShiftOp.shr_sat a n = floor_div a (2 ^ n)
shifted ShiftOp.shr_wrap a n = floor_div a (2 ^ n)

shift_by_lem :
    (op : ShiftOp) (x : Anyint) (n : ℕ)
    → IsValid x
    → Computes (shift_by op x n) (shifted op (to_ℤ x) n)
shift_by_lem ShiftOp.shl x n v = shl_lem x n v
shift_by_lem ShiftOp.shl_sat x n v = shl_lem x n v
shift_by_lem ShiftOp.shl_wrap x n v = shl_lem x n v
shift_by_lem ShiftOp.shr x n v = shr_lem x n v
shift_by_lem ShiftOp.shr_sat x n v = shr_lem x n v
shift_by_lem ShiftOp.shr_wrap x n v = shr_lem x n v

-- The amount that the code reads from an operand that is a word.
amount_lem :
    (y : Anyint) (n : ℕ)
    → IsValid y
    → to_ℤ y ≡ pos n
    → n < base
    → (is_negative y ≡ false) × (shift_amount (to_u64 y) ≡ n)
amount_lem y n v e h =
    let m = Natural-of_to_ℤ y n v e in
    let word : shift_amount (word_of (pos n)) ≡ n = ground arith in
    (m.nonneg, ap shift_amount (to_u64_lem y v ∙ ap word_of e) ∙ word)

sized_lem :
    (packed_bits : Option ℕ) (ty : Ty) (op : ShiftOp) (x : Anyint) (n bits : ℕ)
    → type_bit_size packed_bits ty ≡ some bits
    → sized_shift packed_bits ty op x n ≡ checked_shift op x n (some bits)
unfolding type_bit_size
sized_lem p (Ty.int s b) op x n bits e = ap (checked_shift op x n) e
sized_lem p Ty.anyint op x n bits e = absurd cc
sized_lem p Ty.anyfloat op x n bits e = ap (checked_shift op x n) e
sized_lem p Ty.usize op x n bits e = ap (checked_shift op x n) e
sized_lem p Ty.isize op x n bits e = ap (checked_shift op x n) e
sized_lem p Ty.f16 op x n bits e = ap (checked_shift op x n) e
sized_lem p Ty.f32 op x n bits e = ap (checked_shift op x n) e
sized_lem p Ty.f64 op x n bits e = ap (checked_shift op x n) e
sized_lem p Ty.f128 op x n bits e = ap (checked_shift op x n) e
sized_lem p Ty.bool op x n bits e = ap (checked_shift op x n) e
sized_lem p Ty.void op x n bits e = ap (checked_shift op x n) e
sized_lem p (Ty.struct i) op x n bits e = ap (checked_shift op x n) e
sized_lem p (Ty.enum i) op x n bits e = ap (checked_shift op x n) e
sized_lem p (Ty.union i) op x n bits e = ap (checked_shift op x n) e
sized_lem p (Ty.fn i) op x n bits e = ap (checked_shift op x n) e
sized_lem p (Ty.ptr i) op x n bits e = ap (checked_shift op x n) e
sized_lem p (Ty.slice i) op x n bits e = ap (checked_shift op x n) e
sized_lem p (Ty.array i) op x n bits e = ap (checked_shift op x n) e
sized_lem p Ty.null_ptr op x n bits e = ap (checked_shift op x n) e
sized_lem p Ty.anyptr op x n bits e = ap (checked_shift op x n) e
sized_lem p Ty.type op x n bits e = ap (checked_shift op x n) e
sized_lem p Ty.never op x n bits e = ap (checked_shift op x n) e
sized_lem p Ty.enum_literal op x n bits e = ap (checked_shift op x n) e
sized_lem p Ty.generic_poison op x n bits e = ap (checked_shift op x n) e

-- What a shift by `n` of the integer `a` leads to: an error, or the exact result.
abbrev pub IsShifted : Bool → ShiftOp → ℤ → ℕ → Outcome → Type 0
IsShifted true op a n out = out ≡ Outcome.failed Diag.shift_too_large
IsShifted false op a n out = (r : Anyint) × (out ≡ Outcome.done r) × Computes r (shifted op a n)

IsShifted-if :
    (b : Bool) (op : ShiftOp) (x : Anyint) (n : ℕ)
    → IsValid x
    → IsShifted b op
        (to_ℤ x)
        n
        (if b then Outcome.failed Diag.shift_too_large else Outcome.done (shift_by op x n))
IsShifted-if true op x n v = refl
IsShifted-if false op x n v = (shift_by op x n, refl, shift_by_lem op x n v)

-- A compile-time shift by `n` at a type of `bits` bits is refused when `n` is not smaller than
-- `bits` and the operation does not wrap, and otherwise returns the exact product or quotient.
pub fold_shift_lem :
    (packed_bits : Option ℕ) (ty : Ty) (op : ShiftOp) (x y : Anyint) (n bits : ℕ)
    → IsValid x
    → IsValid y
    → to_ℤ y ≡ pos n
    → n < base
    → type_bit_size packed_bits ty ≡ some bits
    → IsShifted (leb bits n && not (is_wrap op)) op (to_ℤ x) n (fold_shift packed_bits ty op x y)
unfolding fold_shift
fold_shift_lem p ty op x y n bits v w e h size =
    let a = amount_lem y n w e h in
    rw (a.1, sized_lem p ty op x n bits size, a.0)
      (IsShifted-if (leb bits n && not (is_wrap op)) op x n v)

-- A compile-time shift at `usize`, by an amount that is not negative, panics.
pub fold_shift_panics :
    (packed_bits : Option ℕ) (op : ShiftOp) (x y : Anyint) (n : ℕ)
    → IsValid y
    → to_ℤ y ≡ pos n
    → fold_shift packed_bits Ty.usize op x y ≡ Outcome.panic
unfolding fold_shift type_bit_size
fold_shift_panics p op x y n w e = rw (Natural-of_to_ℤ y n w e).nonneg refl
