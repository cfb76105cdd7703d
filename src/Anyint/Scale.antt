-- ===== src/Anyint/Scale.antt =====
-- src/int.rs: `<<`, `>>` and `!` of `Anyint`. The right shift rounds down, also below zero.
use vif.Prelude.{
  ℕ, zero, suc, ◌+◌, ◌-◌, ◌*◌, ◌/◌, ◌^◌, ◌<◌, List, [], ◌∷◌, Bool, true, false, ◌≡◌, refl, sym, ap,
  ap₂, ◌∙◌, arith, if◌then◌else◌, ltb, Bool-cases, inl, inr,
}
use mathlib.Core.Path.{subst}
use native.Mathlib.Nat.{add-div_right}
use vif.Prelude.Powers.{pow_pos}
use vif.Prelude.Int.{ℤ, pos, negsuc, ◌+ℤ◌, ◌-ℤ◌, ◌*ℤ◌, int_laws}
use vif.Anyint.Limbs.{base, value}
use vif.Anyint.Shift.{abs_shl, abs_shl_lem, abs_shr, abs_shr_lem}
use vif.Anyint.Sign.{
  Anyint, with_sign, with_sign-IsValid, from_u64, neg, add, sub, IsValid, to_ℤ, signed, minus,
  normalize_lem, Computes,
}
use vif.Anyint.Arith.{signed_mul, neg_lem, add_lem, negative_pos}
use vif.Anyint.LongDivision.{sub-Natural}
use vif.Anyint.Natural.{Natural-of_limbs, Natural, Natural-of_to_ℤ, to_ℤ-Natural}

unfoldable pub shl : Anyint → ℕ → Anyint
shl x shift = with_sign x.negative (abs_shl x.limbs shift)

-- `abs_shr`, whose result is not negative.
abbrev pub shr_abs : Anyint → ℕ → Anyint
shr_abs x shift = with_sign false (abs_shr x.limbs shift)

-- `abs + mask` for `shift > 0`.
abbrev pub rounded : Anyint → ℕ → Anyint
rounded abs shift = if ltb 0 shift then add abs (sub (shl (from_u64 1) shift) (from_u64 1)) else abs

-- `>>` calls itself on a magnitude, which is not negative, so that two calls are enough.
shr_calls : ℕ → Anyint → ℕ → Anyint
shr_calls zero x shift = x
shr_calls (suc calls) x shift =
    let inner = neg (shr_calls calls (rounded (neg x) shift) shift) in
    if x.negative then inner else shr_abs x shift

unfoldable pub shr : Anyint → ℕ → Anyint
unfolding shr_calls
shr x shift = shr_calls 2 x shift

unfoldable pub not_int : Anyint → Anyint
not_int x = neg (add x (from_u64 1))

-- Division by `d` that rounds down.
abbrev pub floor_div : ℤ → ℕ → ℤ
floor_div (pos n) d = pos (n / d)
floor_div (negsuc n) d = negsuc (n / d)

-- The integer with every binary digit flipped.
abbrev pub complement_ℤ : ℤ → ℤ
complement_ℤ (pos n) = negsuc n
complement_ℤ (negsuc n) = pos n

pub from_u64-Natural : (n : ℕ) → n < base → Natural (from_u64 n) n
from_u64-Natural n h =
    let r = normalize_lem (record { negative = false; limbs = n ∷ [] }) (h, tt) in
    Natural-of_to_ℤ (from_u64 n) n r.0 (r.1 ∙ ap pos (omega arith))

signed_scale : (b : Bool) (m n : ℕ) → signed b (m * n) ≡ signed b m *ℤ pos n
signed_scale true m n = signed_mul true false m n
signed_scale false m n = signed_mul false false m n

-- `<<` multiplies by a power of two.
pub shl_lem :
    (x : Anyint) (shift : ℕ) → IsValid x → Computes (shl x shift) (to_ℤ x *ℤ pos (2 ^ shift))
unfolding shl
shl_lem x shift v =
    let s = abs_shl_lem x.limbs shift v.words in
    let w = with_sign-IsValid x.negative (abs_shl x.limbs shift) s.1 s.2 in
    (w.0, w.1 ∙ ap (signed x.negative) s.0 ∙ signed_scale x.negative (value x.limbs) (2 ^ shift))

shr_abs_lem : (x : Anyint) (n shift : ℕ) → Natural x n → Natural (shr_abs x shift) (n / 2 ^ shift)
shr_abs_lem x n shift h =
    let s = abs_shr_lem x.limbs shift h.valid.words in
    let w = with_sign-IsValid false (abs_shr x.limbs shift) s.1 s.2 in
    Natural-of_to_ℤ _ _ w.0 (w.1 ∙ ap pos (s.0 ∙ ap (λ (m : ℕ). m / 2 ^ shift) h.number))

add-Natural : (x y : Anyint) (m n : ℕ) → Natural x m → Natural y n → Natural (add x y) (m + n)
add-Natural x y m n hx hy =
    let s = add_lem x y hx.valid hy.valid in
    let e = ap₂ ◌+ℤ◌ (to_ℤ-Natural x m hx) (to_ℤ-Natural y n hy) in
    let d : pos m +ℤ pos n ≡ pos (m + n) = omega int_laws in
    Natural-of_to_ℤ (add x y) (m + n) s.0 (s.1 ∙ e ∙ d)

-- `2 ^ shift`, as the code makes it.
pub power-Natural : (shift : ℕ) → Natural (shl (from_u64 1) shift) (2 ^ shift)
power-Natural shift =
    let one = from_u64-Natural 1 (omega arith) in
    let s = shl_lem (from_u64 1) shift one.valid in
    let e =
      ap (λ z. z *ℤ pos (2 ^ shift)) (to_ℤ-Natural _ _ one)
      ∙ sym (signed_scale false 1 (2 ^ shift)) in
    Natural-of_to_ℤ _ _ s.0 (s.1 ∙ e ∙ ap pos (omega arith))

rounded_lem :
    (x : Anyint) (n shift : ℕ) → Natural x n → Natural (rounded x shift) (n + (2 ^ shift - 1))
rounded_lem x n shift h = elim (Bool-cases (ltb 0 shift)) [
  | inl more ↦
      let one = from_u64-Natural 1 (omega arith) in
      rw more (
        add-Natural x _ n _ h
          (sub-Natural _ _ _ _ (power-Natural shift) one (omega (arith, pow_pos shift))))
  | inr nothing ↦
      let e : shift ≡ 0 = ground arith in
      let same : n ≡ n + (2 ^ shift - 1) = rw e (omega arith) in
      rw nothing (subst (Natural x) same h)
]

shr_negative :
    (x : Anyint) (n shift : ℕ)
    → IsValid x
    → to_ℤ x ≡ negsuc n
    → Computes (neg (shr_calls 1 (rounded (neg x) shift) shift)) (negsuc (n / 2 ^ shift))
unfolding shr_calls
shr_negative x n shift v e =
    let p = 2 ^ shift in
    let flipped = neg_lem x v in
    let flip : pos 0 -ℤ negsuc n ≡ pos (suc n) = omega int_laws in
    let abs =
      Natural-of_to_ℤ (neg x) (suc n) flipped.0 (flipped.1 ∙ ap (λ z. pos 0 -ℤ z) e ∙ flip) in
    let up = rounded_lem (neg x) (suc n) shift abs in
    let sum : suc n + (p - 1) ≡ n + p = omega (arith, pow_pos shift) in
    let q = shr_abs_lem (rounded (neg x) shift) _ shift up in
    let total = ap (λ (m : ℕ). m / p) sum ∙ add-div_right n (pow_pos shift) in
    let back = neg_lem (shr_abs (rounded (neg x) shift) shift) q.valid in
    let means = to_ℤ-Natural _ _ q ∙ ap pos total in
    let last : pos 0 -ℤ pos (n / p + 1) ≡ negsuc (n / p) = omega int_laws in
    rw up.nonneg (back.0, back.1 ∙ ap (λ z. pos 0 -ℤ z) means ∙ last)

minus-suc : (m : ℕ) → 0 < m → minus m ≡ negsuc (m - 1)
minus-suc zero h = elim h [ ]
minus-suc (suc m) h = ap negsuc (omega arith)

shr_fields :
    (b : Bool) (xs : List ℕ) (shift : ℕ)
    → IsValid (record { negative = b; limbs = xs })
    → Computes
        (shr (record { negative = b; limbs = xs }) shift)
        (floor_div (signed b (value xs)) (2 ^ shift))
unfolding shr
shr_fields true xs shift v =
    let e = minus-suc (value xs) (negative_pos xs v.trimmed v.signed_zero) in
    let r = shr_negative (record { negative = true; limbs = xs }) (value xs - 1) shift v e in
    (r.0, r.1 ∙ ap (λ z. floor_div z (2 ^ shift)) (sym e))
shr_fields false xs shift v =
    let x : Anyint = record { negative = false; limbs = xs } in
    let h = shr_abs_lem x (value xs) shift (Natural-of_limbs x _ refl v.words v.trimmed refl) in
    (h.valid, to_ℤ-Natural _ _ h)

-- `>>` divides by a power of two and rounds down.
pub shr_lem :
    (x : Anyint) (shift : ℕ) → IsValid x → Computes (shr x shift) (floor_div (to_ℤ x) (2 ^ shift))
shr_lem x shift v = shr_fields x.negative x.limbs shift v

complement_sub : (a : ℤ) → pos 0 -ℤ (a +ℤ pos 1) ≡ complement_ℤ a
complement_sub (pos n) = omega int_laws
complement_sub (negsuc n) = omega int_laws

-- `!` flips every binary digit.
pub not_int_lem : (x : Anyint) → IsValid x → Computes (not_int x) (complement_ℤ (to_ℤ x))
unfolding not_int
not_int_lem x v =
    let one = from_u64-Natural 1 (omega arith) in
    let a = add_lem x (from_u64 1) v one.valid in
    let n = neg_lem (add x (from_u64 1)) a.0 in
    (
      n.0,
      n.1
          ∙ ap (λ z. pos 0 -ℤ z) (a.1 ∙ ap (λ z. to_ℤ x +ℤ z) (to_ℤ-Natural _ _ one))
          ∙ complement_sub (to_ℤ x),
    )
