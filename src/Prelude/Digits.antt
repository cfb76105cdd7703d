-- ===== src/Prelude/Digits.antt =====
-- The binary digits of numbers and integers, and the operations that act on each digit.
use Prim.Native.Nat.{
  differ, ℕ, zero, suc, ◌+◌, ◌-◌, ◌*◌, ◌/◌, ◌%◌, ◌^◌, ◌≤◌, ◌<◌, min, max, bit_and, bit_or, bit_xor,
  bit_xor-bitwise,
}
use mathlib.Core.Path.{◌≡◌, ap, ap₂, ◌∙◌}
use native.Mathlib.Nat.{pow-suc}
use native.Mathlib.Omega.{arith}
use vif.Prelude.Bits.{bit_and_digit, bit_or_digit, bitwise-suc}
use vif.Prelude.Powers.{pow_pos}
use vif.Prelude.Int.{ℤ, pos, negsuc}

-- The digit of weight `2 ^ k`.
abbrev pub digit : ℕ → ℕ → ℕ
digit n zero = n % 2
digit n (suc k) = digit (n / 2) k

pub digit_le : (n k : ℕ) → digit n k ≤ 1
digit_le n zero = omega arith
digit_le n (suc k) = digit_le (n / 2) k

pub digit_above : (w n k : ℕ) → n < 2 ^ w → w ≤ k → digit n k ≡ 0
digit_above zero n zero h le = omega arith
digit_above zero n (suc k) h le = digit_above zero (n / 2) k (omega arith) (omega arith)
digit_above (suc w) n zero h le = absurd (omega arith)
digit_above (suc w) n (suc k) h le =
    digit_above w (n / 2) k (omega (arith, pow-suc 2 w)) (omega arith)

-- In `m` digits, `2 ^ m - 1 - n` has the other digit at each place.
pub digit_complement : (m n k : ℕ) → n < 2 ^ m → k < m → digit (2 ^ m - 1 - n) k + digit n k ≡ 1
digit_complement zero n k h lt = absurd (omega arith)
digit_complement (suc m) n zero h lt = omega (arith, pow-suc 2 m, pow_pos m)
digit_complement (suc m) n (suc k) h lt =
    let half : (2 ^ suc m - 1 - n) / 2 ≡ 2 ^ m - 1 - n / 2 =
      omega (arith, pow-suc 2 m, pow_pos m) in
    let ih = digit_complement m (n / 2) k (omega (arith, pow-suc 2 m)) (omega arith) in
    omega (arith, ih, ap (λ (t : ℕ). digit t k) half)

-- The digit of an integer, in two's complement of unbounded width.
abbrev pub digit_ℤ : ℤ → ℕ → ℕ
digit_ℤ (pos n) k = digit n k
digit_ℤ (negsuc n) k = 1 - digit n k

pub data BitOp : Type 0 where
  and or xor : BitOp

-- `l & r`, `l | r` and `l ^ r`.
abbrev pub bit_op : BitOp → ℕ → ℕ → ℕ
bit_op and a b = bit_and a b
bit_op or a b = bit_or a b
bit_op xor a b = bit_xor a b

-- The operation on two digits.
abbrev pub digit_op : BitOp → ℕ → ℕ → ℕ
digit_op and a b = min a b
digit_op or a b = max a b
digit_op xor a b = (a + b) % 2

differ_lem : (x y : ℕ) → x ≤ 1 → y ≤ 1 → differ x y ≡ (x + y) % 2
differ_lem zero y h k = omega arith
differ_lem (suc zero) zero h k = omega arith
differ_lem (suc zero) (suc zero) h k = omega arith
differ_lem (suc zero) (suc (suc y)) h k = absurd (omega arith)
differ_lem (suc (suc x)) y h k = absurd (omega arith)

bit_xor_digit : (a b : ℕ) → bit_xor a b ≡ bit_xor (a / 2) (b / 2) * 2 + (a % 2 + b % 2) % 2
bit_xor_digit zero b = simp bit_xor-bitwise (omega arith)
bit_xor_digit (suc a) b = simp bit_xor-bitwise (
    omega (
      arith,
      bitwise-suc (λ y. y) differ a b,
      differ_lem (suc a % 2) (b % 2) (omega arith) (omega arith),
    ))

pub bit_op_digit :
    (op : BitOp) (a b : ℕ)
    → bit_op op a b ≡ bit_op op (a / 2) (b / 2) * 2 + digit_op op (a % 2) (b % 2)
bit_op_digit and a b = bit_and_digit a b
bit_op_digit or a b = bit_or_digit a b
bit_op_digit xor a b = bit_xor_digit a b

pub digit_op_le : (op : BitOp) (x y : ℕ) → x ≤ 1 → y ≤ 1 → digit_op op x y ≤ 1
digit_op_le and x y h k = omega arith
digit_op_le or x y h k = omega arith
digit_op_le xor x y h k = omega arith

pub bit_op-zero : (op : BitOp) → bit_op op 0 0 ≡ 0
bit_op-zero and = omega (arith, bit_and_digit 0 0)
bit_op-zero or = omega (arith, bit_or_digit 0 0)
bit_op-zero xor = omega (arith, bit_xor_digit 0 0)

-- The operations act on each digit.
pub digit-bit_op :
    (op : BitOp) (a b k : ℕ) → digit (bit_op op a b) k ≡ digit_op op (digit a k) (digit b k)
digit-bit_op op a b zero =
    omega (arith, bit_op_digit op a b, digit_op_le op (a % 2) (b % 2) (omega arith) (omega arith))
digit-bit_op op a b (suc k) =
    let half : bit_op op a b / 2 ≡ bit_op op (a / 2) (b / 2) =
      omega
        (arith, bit_op_digit op a b, digit_op_le op (a % 2) (b % 2) (omega arith) (omega arith)) in
    ap (λ (n : ℕ). digit n k) half ∙ digit-bit_op op (a / 2) (b / 2) k

pub bit_op_lt : (op : BitOp) (k a b : ℕ) → a < 2 ^ k → b < 2 ^ k → bit_op op a b < 2 ^ k
bit_op_lt op zero a b h l = omega (
  arith,
  bit_op-zero op,
  ap₂ (bit_op op) {x = a} {y = 0} {u = b} {v = 0} (omega arith) (omega arith),
)
bit_op_lt op (suc k) a b h l = omega (
  arith,
  pow-suc 2 k,
  bit_op_digit op a b,
  digit_op_le op (a % 2) (b % 2) (omega arith) (omega arith),
  bit_op_lt op k (a / 2) (b / 2) (omega (arith, pow-suc 2 k)) (omega (arith, pow-suc 2 k)),
)

-- The operations act on the low `k` digits and on the digits above them.
pub bit_op-split :
    (op : BitOp) (k x y a b : ℕ)
    → x < 2 ^ k
    → y < 2 ^ k
    → bit_op op (x + 2 ^ k * a) (y + 2 ^ k * b) ≡ bit_op op x y + 2 ^ k * bit_op op a b
bit_op-split op zero x y a b h l =
    let low = ap₂ (bit_op op) {x = x} {y = 0} {u = y} {v = 0} (omega arith) (omega arith) in
    let top =
      ap₂ (bit_op op) {x = x + 1 * a} {y = a} {u = y + 1 * b} {v = b} (omega arith) (omega arith) in
    omega (arith, low, top, bit_op-zero op)
bit_op-split op (suc k) x y a b h l =
    let twice = pow-suc 2 k in
    let wide_a : 2 ^ suc k * a ≡ 2 * (2 ^ k * a) = omega (arith, ap (λ (t : ℕ). t * a) twice) in
    let wide_b : 2 ^ suc k * b ≡ 2 * (2 ^ k * b) = omega (arith, ap (λ (t : ℕ). t * b) twice) in
    let wide : 2 ^ suc k * bit_op op a b ≡ 2 * (2 ^ k * bit_op op a b) =
      omega (arith, ap (λ (t : ℕ). t * bit_op op a b) twice) in
    let half =
      ap₂ (bit_op op) {x = (x + 2 ^ suc k * a) / 2} {y = x / 2 + 2 ^ k * a}
        {u = (y + 2 ^ suc k * b) / 2} {v = y / 2 + 2 ^ k * b} (omega arith) (omega arith) in
    let low =
      ap₂ (digit_op op) {x = (x + 2 ^ suc k * a) % 2} {y = x % 2} {u = (y + 2 ^ suc k * b) % 2}
        {v = y % 2} (omega arith) (omega arith) in
    let ih = bit_op-split op k (x / 2) (y / 2) a b (omega arith) (omega arith) in
    omega (
      arith,
      half,
      low,
      ih,
      wide,
      bit_op_digit op (x + 2 ^ suc k * a) (y + 2 ^ suc k * b),
      bit_op_digit op x y,
    )
