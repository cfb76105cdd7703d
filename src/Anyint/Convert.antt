-- ===== src/Anyint/Convert.antt =====
-- src/int.rs: the conversions from machine integers, `from_unsigned!`, `from_signed!` and
-- `From<u128>`, and the default value.
use vif.Prelude.{
  Bool-cases, inl, inr, suc, ℕ, ◌%◌, ◌-◌, ◌<◌, ◌≤◌, List, [], ◌∷◌, Bool, true, false, ◌≡◌, ap, ◌∙◌,
  arith, ◌==◌, ltb, if◌then◌else◌,
}
use vif.Prelude.Int.{ℤ, pos, negsuc}
use vif.Anyint.Limbs.{base, as_u64, high, u128, u128_mod, IsLimbs, value}
use vif.Anyint.Sign.{Anyint, zero_int, normalize, signed, normalize_lem, Computes}
use vif.Anyint.Range.{IsSigned}

-- `if high != 0 { res.limbs.push(high) }`
abbrev pub push_high : ℕ → List ℕ
push_high n = if n == 0 then [] else n ∷ []

-- `from_unsigned!`, for a type of `size` bytes.
unfoldable pub from_unsigned : ℕ → ℕ → Anyint
from_unsigned size n =
    let upper = if ltb 8 size then push_high (as_u64 (high n)) else [] in
    normalize (record { negative = false; limbs = as_u64 n ∷ upper })

-- `value as u128`, for a value of `i128`.
unfoldable pub as_u128 : ℤ → ℕ
as_u128 (pos n) = u128 n
as_u128 (negsuc n) = u128_mod - 1 - n % u128_mod

-- `wrapping_neg() as u128`
unfoldable pub wrapping_neg : ℤ → ℕ
wrapping_neg n = u128 (u128_mod - as_u128 n)

-- `value < 0`
abbrev pub below_zero : ℤ → Bool
below_zero (pos n) = false
below_zero (negsuc n) = true

-- `from_signed!`: `from_abs` is its second half.
abbrev pub from_abs : Bool → ℕ → Anyint
from_abs negative abs =
    normalize (record { negative = negative; limbs = as_u64 abs ∷ push_high (as_u64 (high abs)) })

unfoldable pub from_signed : ℤ → Anyint
from_signed n = from_abs (below_zero n) (if below_zero n then wrapping_neg n else as_u128 n)

-- `From<u128>`
unfoldable pub from_u128 : ℕ → Anyint
from_u128 n = normalize (record { negative = false; limbs = as_u64 n ∷ as_u64 (high n) ∷ [] })

-- `Default`
abbrev pub default : Anyint
default = zero_int

push_high_lem : (n : ℕ) → n < base → (value (push_high n) ≡ n) × IsLimbs (push_high n)
push_high_lem n h = ground arith

from_abs_lem : (b : Bool) (n : ℕ) → n < u128_mod → Computes (from_abs b n) (signed b n)
from_abs_lem b n h =
    let p = push_high_lem (as_u64 (high n)) (omega arith) in
    let r =
      normalize_lem (record { negative = b; limbs = as_u64 n ∷ push_high (as_u64 (high n)) })
        (omega arith, p.1) in
    (r.0, r.1 ∙ ap (signed b) (omega (arith, p.0)))

-- The conversion of a signed machine integer of at most 128 bits, the least one included, gives a
-- valid integer of the same value.
pub from_signed_lem : (n : ℤ) → IsSigned 128 n → Computes (from_signed n) n
unfolding from_signed as_u128 wrapping_neg
from_signed_lem (pos n) h =
    let e : u128 n ≡ n = omega arith in
    let r = from_abs_lem false (u128 n) (omega arith) in (r.0, r.1 ∙ ap pos e)
from_signed_lem (negsuc n) h =
    let e : u128 (u128_mod - (u128_mod - 1 - n % u128_mod)) ≡ suc n = omega arith in
    let r = from_abs_lem true (u128 (u128_mod - (u128_mod - 1 - n % u128_mod))) (omega arith) in
    (r.0, r.1 ∙ ap (signed true) e)

upper_lem :
    (size n : ℕ)
    → n < u128_mod
    → (size ≤ 8 → n < base)
    → let upper = if ltb 8 size then push_high (as_u64 (high n)) else [] in
      (value upper ≡ high n) × IsLimbs upper
upper_lem size n h fits = elim (Bool-cases (ltb 8 size)) [
  | inl e ↦
      rw e (let p = push_high_lem (as_u64 (high n)) (omega arith) in (omega (arith, p.0), p.1))
  | inr e ↦ let small = fits (ground arith) in rw e (omega arith, tt)
]

-- The conversion of an unsigned integer of `size` bytes.
pub from_unsigned_lem :
    (size n : ℕ) → n < u128_mod → (size ≤ 8 → n < base) → Computes (from_unsigned size n) (pos n)
unfolding from_unsigned
from_unsigned_lem size n h fits =
    let p = upper_lem size n h fits in
    let upper = if ltb 8 size then push_high (as_u64 (high n)) else [] in
    let r =
      normalize_lem (record { negative = false; limbs = as_u64 n ∷ upper }) (omega arith, p.1) in
    (r.0, r.1 ∙ ap pos (omega (arith, p.0)))

pub from_u128_lem : (n : ℕ) → n < u128_mod → Computes (from_u128 n) (pos n)
unfolding from_u128
from_u128_lem n h =
    let r =
      normalize_lem (record { negative = false; limbs = as_u64 n ∷ as_u64 (high n) ∷ [] })
        (omega arith, (omega arith, tt)) in
    (r.0, r.1 ∙ ap pos (omega arith))
