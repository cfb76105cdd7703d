-- ===== src/Prelude/Powers.antt =====
-- Powers of two, and a word cut in two by one.
use mathlib.Core.Path.{◌≡◌, sym, ap, ◌∙◌}
use native.Mathlib.Nat.{
  mul-le-mul_right, mul_comm, pow-suc, add-mul, mul_right_comm, one-le-pow, div-add-mod, mod-lt,
  div-lt_iff_lt-mul, mul_comm, add-mul-div_left, pow-le-pow_right,
}
use native.Mathlib.Omega.{arith}
use Prim.Native.Nat.{ℕ, zero, suc, ◌+◌, ◌-◌, ◌*◌, ◌/◌, ◌%◌, ◌^◌, ◌≤◌, ◌<◌}

pub pow_pos : (k : ℕ) → 0 < 2 ^ k
pow_pos k = one-le-pow k 2 (omega arith)

pub pow-add : (a b : ℕ) → 2 ^ (a + b) ≡ 2 ^ a * 2 ^ b
pow-add zero b = ap (λ (n : ℕ). 2 ^ n) {y = b} (omega arith) ∙ omega arith
pow-add (suc a) b =
    ap (λ (n : ℕ). 2 ^ n) {y = suc (a + b)} (omega arith)
    ∙ omega (arith, pow-suc 2 (a + b), pow-add a b, ap (λ (t : ℕ). t * 2 ^ b) (pow-suc 2 a))

pub pow_le_pow : (a b : ℕ) → a ≤ b → 2 ^ a ≤ 2 ^ b
pow_le_pow a b h = pow-le-pow_right (omega arith) h

-- The two halves of `1 << 64`.
pub pow_complement : (s : ℕ) → s ≤ 64 → 2 ^ s * 2 ^ (64 - s) ≡ 2 ^ 64
pow_complement s h =
    let e : 2 ^ (s + (64 - s)) ≡ 2 ^ 64 = ap (λ (n : ℕ). 2 ^ n) {y = 64} (omega arith) in
    omega (arith, pow-add s (64 - s), e)

pub regroup_word : (p q d r : ℕ) → p * q ≡ 2 ^ 64 → (q * d + r) * p ≡ 2 ^ 64 * d + r * p
regroup_word p q d r e =
    add-mul (q * d) r p
    ∙ ap (λ (n : ℕ). n + r * p) (mul_right_comm q d p ∙ ap (λ (n : ℕ). n * d) (mul_comm q p ∙ e))

-- What `x << s` shifts out, and what stays.
pub word_split : (x p q : ℕ) → p * q ≡ 2 ^ 64 → x * p ≡ 2 ^ 64 * (x / q) + x % q * p
word_split x p q e =
    sym (ap (λ (n : ℕ). n * p) (div-add-mod x q)) ∙ regroup_word p q (x / q) (x % q) e

-- Two fields side by side are a word.
pub word_room : (r low p q : ℕ) → r < q → low < p → p * q ≡ 2 ^ 64 → r * p + low < 2 ^ 64
word_room r low p q hr hl e =
    let r' : r + 1 ≤ q = omega arith in
    let room : (r + 1) * p ≤ q * p = mul-le-mul_right p r' in omega (arith, room, mul_comm p q)

-- `x << s` keeps the low `t` bits of `x`, for `s + t = 64`.
pub shl_word : (x p q : ℕ) → 0 < p → 0 < q → p * q ≡ 2 ^ 64 → x * p % 2 ^ 64 ≡ x % q * p
shl_word x p q hp hq e =
    omega (arith, word_split x p q e, word_room (x % q) 0 p q (mod-lt x hq) hp e)

pub div_lt_of_mul : (x p q : ℕ) → 0 < q → p * q ≡ 2 ^ 64 → x < 2 ^ 64 → x / q < p
div_lt_of_mul x p q hq e h = (div-lt_iff_lt-mul {k = q} {x = x} {y = p} hq).1 (omega arith)

-- The word below a number, divided by a power of two that divides the base.
pub div_low_word : (x v p q : ℕ) → 0 < p → p * q ≡ 2 ^ 64 → (x + 2 ^ 64 * v) / p ≡ x / p + q * v
div_low_word x v p q hp e =
    let cut = ap (λ (n : ℕ). n * v) e in
    let same : x + 2 ^ 64 * v ≡ x + p * (q * v) = omega arith in
    ap (λ (n : ℕ). n / p) same ∙ add-mul-div_left x (q * v) hp

pub mod_low_word : (x v p q : ℕ) → 0 < p → p * q ≡ 2 ^ 64 → (x + 2 ^ 64 * v) % p ≡ x % p
mod_low_word x v p q hp e =
    let cut = ap (λ (n : ℕ). n * v) e in
    let l = div-add-mod (x + 2 ^ 64 * v) p in
    let r = div-add-mod x p in
    let d = ap (λ (n : ℕ). p * n) (div_low_word x v p q hp e) in omega (arith, l, r, d, cut)
