-- ===== src/Sema/Bitwise.antt =====
-- src/compile_unit/sema.rs: what `&`, `|` and `^` return at compile time, against the range of a
-- type.
use vif.Prelude.{
  ◌-◌, refl, Bool, ℕ, zero, suc, ◌+◌, ◌/◌, ◌%◌, ◌^◌, ◌≤◌, ◌<◌, ◌≡◌, ◌∙◌, sym, arith, ap₂,
}
use mathlib.Core.Path.{subst}
use vif.Anyint.Arith.{minus_parts}
use vif.Anyint.Range.{IsUnsigned, IsSigned}
use vif.Sema.Wrap.{IsInRange}
use vif.Prelude.{true, false}
use native.Mathlib.Nat.{pow-suc}
use vif.Prelude.Powers.{pow_pos}
use vif.Prelude.Int.{ℤ, pos, negsuc}
use vif.Prelude.Digits.{digit, digit_le, digit_above, digit_ℤ, BitOp, digit_op}
use vif.Anyint.Sign.{Anyint, IsValid, to_ℤ}
use vif.Anyint.Bitwise.{bitwise_lem}
use vif.Sema.Comptime.{fold_bitwise}

lt_pow : (n : ℕ) → n < 2 ^ n
lt_pow zero = omega arith
lt_pow (suc n) = omega (arith, lt_pow n, pow-suc 2 n)

-- A number with no digit from the place `w` on.
below_pow : (fuel w n : ℕ) → n < 2 ^ fuel → ((k : ℕ) → w ≤ k → digit n k ≡ 0) → n < 2 ^ w
below_pow zero w n h none_above = omega (arith, pow_pos w)
below_pow (suc fuel) zero n h none_above =
    let half : n / 2 < 2 ^ 0 =
      below_pow fuel 0 (n / 2) (omega (arith, pow-suc 2 fuel))
        (λ k le. none_above (suc k) (omega arith)) in
    let low : n % 2 ≡ 0 = none_above 0 (omega arith) in omega arith
below_pow (suc fuel) (suc w) n h none_above =
    let half =
      below_pow fuel w (n / 2) (omega (arith, pow-suc 2 fuel))
        (λ k le. none_above (suc k) (omega arith)) in
    omega (arith, half, pow-suc 2 w)

-- From - 2 ^ w to 2 ^ w - 1, with the digit `c` of the sign.
abbrev IsBounded : ℕ → ℕ → ℤ → Type 0
IsBounded w c (pos n) = (n < 2 ^ w) × (c ≡ 0)
IsBounded w c (negsuc n) = (n < 2 ^ w) × (c ≡ 1)

digit_ℤ-IsBounded : (w c : ℕ) (z : ℤ) (k : ℕ) → IsBounded w c z → w ≤ k → digit_ℤ z k ≡ c
digit_ℤ-IsBounded w c (pos n) k h le = digit_above w n k h.0 le ∙ sym h.1
digit_ℤ-IsBounded w c (negsuc n) k h le = omega (arith, digit_above w n k h.0 le, h.1)

IsBounded-digit_ℤ : (w c : ℕ) (z : ℤ) → ((k : ℕ) → w ≤ k → digit_ℤ z k ≡ c) → IsBounded w c z
IsBounded-digit_ℤ w c (pos n) h =
    let sign : c ≡ 0 =
      sym (h (w + n) (omega arith)) ∙ digit_above n n (w + n) (lt_pow n) (omega arith) in
    (below_pow n w n (lt_pow n) (λ k le. h k le ∙ sign), sign)
IsBounded-digit_ℤ w c (negsuc n) h =
    let sign : c ≡ 1 =
      omega (arith, h (w + n) (omega arith), digit_above n n (w + n) (lt_pow n) (omega arith)) in
    (below_pow n w n (lt_pow n) (λ k le. omega (arith, h k le, digit_le n k, sign)), sign)

bitwise-IsBounded :
    (op : BitOp) (x y : Anyint) (w a b : ℕ)
    → IsValid x
    → IsValid y
    → IsBounded w a (to_ℤ x)
    → IsBounded w b (to_ℤ y)
    → IsBounded w (digit_op op a b) (to_ℤ (fold_bitwise op x y))
unfolding fold_bitwise
bitwise-IsBounded op x y w a b vx vy hx hy = IsBounded-digit_ℤ w _ _ (λ k le.
    (bitwise_lem op x y k vx vy).1
    ∙ ap₂ (digit_op op) (digit_ℤ-IsBounded w a (to_ℤ x) k hx le)
        (digit_ℤ-IsBounded w b (to_ℤ y) k hy le))

IsUnsigned-IsBounded : (bits : ℕ) (z : ℤ) → IsUnsigned bits z → IsBounded bits 0 z
IsUnsigned-IsBounded bits (pos n) h = (omega (arith, h.1), refl)
IsUnsigned-IsBounded bits (negsuc n) h = absurd (omega (arith, h.0))

IsBounded-IsUnsigned : (bits : ℕ) (z : ℤ) → IsBounded bits 0 z → IsUnsigned bits z
IsBounded-IsUnsigned bits (pos n) h = (omega arith, omega (arith, h.0))
IsBounded-IsUnsigned bits (negsuc n) h = absurd (omega (arith, h.1))

IsSigned-IsBounded : (bits : ℕ) (z : ℤ) → IsSigned bits z → (c : ℕ) × IsBounded (bits - 1) c z
IsSigned-IsBounded bits (pos n) h = (0, (omega (arith, h.1), refl))
IsSigned-IsBounded bits (negsuc n) h = (1, (omega (arith, h.0, minus_parts (2 ^ (bits - 1))), refl))

IsBounded-IsSigned : (bits c : ℕ) (z : ℤ) → IsBounded (bits - 1) c z → IsSigned bits z
IsBounded-IsSigned bits c (pos n) h =
    (omega (arith, minus_parts (2 ^ (bits - 1))), omega (arith, h.0))
IsBounded-IsSigned bits c (negsuc n) h =
    (omega (arith, h.0, minus_parts (2 ^ (bits - 1))), omega (arith, pow_pos (bits - 1)))

digit_op-zero : (op : BitOp) → digit_op op 0 0 ≡ 0
digit_op-zero BitOp.and = refl
digit_op-zero BitOp.or = refl
digit_op-zero BitOp.xor = refl

-- Compile-time `&`, `|` and `^` of two integers of a machine type, which are not wrapped, return an
-- integer in the range of that type, in normal form, whose binary digits in two's complement are
-- those that the operation gives of the digits of the two.
pub fold_bitwise-IsInRange :
    (op : BitOp) (x y : Anyint) (sign : Bool) (bits k : ℕ)
    → IsValid x
    → IsValid y
    → IsInRange sign bits (to_ℤ x)
    → IsInRange sign bits (to_ℤ y)
    → IsValid (fold_bitwise op x y)
      × IsInRange sign bits (to_ℤ (fold_bitwise op x y))
      × (digit_ℤ (to_ℤ (fold_bitwise op x y)) k
          ≡ digit_op op (digit_ℤ (to_ℤ x) k) (digit_ℤ (to_ℤ y) k))
unfolding fold_bitwise
fold_bitwise-IsInRange op x y false bits k vx vy hx hy =
    let (v, d) = bitwise_lem op x y k vx vy in
    let b =
      bitwise-IsBounded op x y bits 0 0 vx vy (IsUnsigned-IsBounded bits (to_ℤ x) hx)
        (IsUnsigned-IsBounded bits (to_ℤ y) hy) in
    let r = to_ℤ (fold_bitwise op x y) in
    (v, IsBounded-IsUnsigned bits r (subst (λ c. IsBounded bits c r) (digit_op-zero op) b), d)
fold_bitwise-IsInRange op x y true bits k vx vy hx hy =
    let (v, d) = bitwise_lem op x y k vx vy in
    let (a, bx) = IsSigned-IsBounded bits (to_ℤ x) hx in
    let (b, by_) = IsSigned-IsBounded bits (to_ℤ y) hy in
    (v, IsBounded-IsSigned bits _ _ (bitwise-IsBounded op x y (bits - 1) a b vx vy bx by_), d)
