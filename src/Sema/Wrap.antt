-- ===== src/Sema/Wrap.antt =====
-- src/compile_unit/sema.rs: `wrap_int_value`, which brings the result of a compile-time operation
-- into the range of its type.
use vif.Prelude.{
  ℕ, zero, suc, ◌-◌, ◌^◌, ◌<◌, Bool, true, false, ◌≡◌, Ordering, refl, sym, ap, ◌∙◌, arith,
  if◌then◌else◌, ◌⊎◌, inl, inr, List, [], ◌∷◌, Option, none, some,
}
use mathlib.Core.Path.{subst}
use native.Mathlib.Nat.{pow-suc}
use Prim.Native.Nat.{lt}
use vif.Prelude.Powers.{pow_pos}
use vif.Prelude.Int.{
  ℤ, pos, pos_part, neg_part, ◌+ℤ◌, ◌-ℤ◌, ◌*ℤ◌, ◌≤ℤ◌, ◌<ℤ◌, int_laws, mul_pred, mul_next,
}
use vif.Anyint.Limbs.{value}
use vif.Anyint.Sign.{
  is_empty, Anyint, from_u64, add, sub, cmp, is_negative, is_zero, IsValid, to_ℤ, signed, compare_ℤ,
}
use vif.Anyint.Arith.{minus_parts, negative_pos, add_lem, sub_lem, cmp_lem}
use vif.Anyint.Quotient.{rem, div_rem_lem, IsTruncated, abs_ℕ}
use vif.Anyint.Range.{IsUnsigned, IsSigned}
use vif.Anyint.Scale.{shl, power-Natural}
use vif.Anyint.Natural.{to_ℤ-Natural}
use vif.Sema.Types.{Ty, int_shape}

infixl 1 ◌>>=◌
abbrev pub ◌>>=◌ {ℓ κ} : {A : Type ℓ} {B : Type κ} → Option A → (A → Option B) → Option B
none >>= f = none
some a >>= f = f a

-- `2 ^ bits`
abbrev modulus_of : ℕ → Anyint
modulus_of bits = shl (from_u64 1) bits

-- `if wrapped.is_negative() { wrapped = &wrapped + &modulus }`
abbrev normalized : Anyint → Anyint → Anyint
normalized wrapped modulus = if is_negative wrapped then add wrapped modulus else wrapped

abbrev is_less : Ordering → Bool
is_less lt = true
is_less _ = false

-- The upper half of the range stands for the negative values; `bits - 1` is computed only for a
-- signed type, and fails for no bits.
abbrev reinterpreted : Bool → ℕ → Anyint → Option Anyint
reinterpreted false bits wrapped = some wrapped
reinterpreted true zero wrapped = none
reinterpreted true (suc bits) wrapped = some (
    if is_less (cmp wrapped (shl (from_u64 1) bits))
    then wrapped
    else sub wrapped (modulus_of (suc bits)))

wrap_to : Option (Bool × ℕ) → Anyint → Option Anyint
wrap_to none value = some value
wrap_to (some (signed, bits)) value = do
  wrapped ← rem value (modulus_of bits)
  reinterpreted signed bits (normalized wrapped (modulus_of bits))

unfoldable pub wrap_int_value : ℕ → Ty → Anyint → Option Anyint
unfolding wrap_to
wrap_int_value ptr_width ty value = wrap_to (int_shape ptr_width ty) value

-- The integers of a machine type.
abbrev pub IsInRange : Bool → ℕ → ℤ → Type 0
IsInRange true bits z = IsSigned bits z
IsInRange false bits z = IsUnsigned bits z

-- Equal up to multiples of `m`.
abbrev pub IsCongruent : ℕ → ℤ → ℤ → Type 0
IsCongruent m a b = (k : ℤ) × (pos m *ℤ k +ℤ b ≡ a)

nonempty_of_value : (xs : List ℕ) → 0 < value xs → is_empty xs ≡ false
nonempty_of_value [] h = elim h [ ]
nonempty_of_value (x ∷ xs) h = refl

modulus_nonzero : (bits : ℕ) → is_zero (modulus_of bits) ≡ false
modulus_nonzero bits =
    let m = power-Natural bits in
    nonempty_of_value (modulus_of bits).limbs (omega (arith, m.number, pow_pos bits))

sign_fields :
    (b : Bool) (xs : List ℕ)
    → IsValid (record { negative = b; limbs = xs })
    → ((b ≡ true) × (signed b (value xs) <ℤ pos 0)) ⊎ ((b ≡ false) × (pos 0 ≤ℤ signed b (value xs)))
sign_fields true xs v =
    inl (refl, omega (arith, minus_parts (value xs), negative_pos xs v.trimmed v.signed_zero))
sign_fields false xs v = inr (refl, omega arith)

-- The sign of an integer in normal form.
sign_cases :
    (x : Anyint)
    → IsValid x
    → ((x.negative ≡ true) × (to_ℤ x <ℤ pos 0)) ⊎ ((x.negative ≡ false) × (pos 0 ≤ℤ to_ℤ x))
sign_cases x v = sign_fields x.negative x.limbs v

-- In the range of an unsigned type, and the same number up to multiples of its modulus.
abbrev Residue : ℕ → ℤ → ℤ → Type 0
Residue bits z w = IsUnsigned bits w × IsCongruent (2 ^ bits) z w

Residue-negative :
    (bits : ℕ) (z q r : ℤ)
    → pos (2 ^ bits) *ℤ q +ℤ r ≡ z
    → r <ℤ pos 0
    → abs_ℕ r < 2 ^ bits
    → Residue bits z (r +ℤ pos (2 ^ bits))
Residue-negative bits z q r e h below =
    let next = mul_pred (2 ^ bits) q in
    let p = ap pos_part e in
    let n = ap neg_part e in
    (
      (omega int_laws, omega int_laws),
      (q -ℤ pos 1, omega (int_laws, ap pos_part next, ap neg_part next)),
    )

Residue-nonneg :
    (bits : ℕ) (z q r : ℤ)
    → pos (2 ^ bits) *ℤ q +ℤ r ≡ z
    → pos 0 ≤ℤ r
    → abs_ℕ r < 2 ^ bits
    → Residue bits z r
Residue-nonneg bits z q r e h below = ((h, omega arith), (q, e))

abbrev Normal : ℕ → ℤ → Anyint → Type 0
Normal bits z x = IsValid x × Residue bits z (to_ℤ x)

-- The remainder brought to the range from 0 to `modulus - 1`.
normalized_lem :
    (bits : ℕ) (z q : ℤ) (r : Anyint)
    → IsValid r
    → IsTruncated z (pos (2 ^ bits)) q (to_ℤ r)
    → Normal bits z (normalized r (modulus_of bits))
normalized_lem bits z q r v t =
    let m = power-Natural bits in
    let below : abs_ℕ (to_ℤ r) < 2 ^ bits = omega (arith, t.below) in
    elim (sign_cases r v) [
      | inl (sign, h) ↦
          let a = add_lem r (modulus_of bits) v m.valid in
          let e = a.1 ∙ ap (λ w. to_ℤ r +ℤ w) (to_ℤ-Natural _ _ m) in
          subst (λ b. Normal bits z (if b then add r (modulus_of bits) else r)) (sym sign)
            (
              a.0,
              subst (Residue bits z) (sym e) (Residue-negative bits z q (to_ℤ r) t.whole h below),
            )
      | inr (sign, h) ↦
          subst (λ b. Normal bits z (if b then add r (modulus_of bits) else r)) (sym sign)
            (v, Residue-nonneg bits z q (to_ℤ r) t.whole h below)
    ]

-- What `wrap_int_value` promises of its result.
pub record IsWrapped (sign : Bool) (bits : ℕ) (z : ℤ) (w : Anyint) : Type 0 where
  pub valid : IsValid w
  pub in_range : IsInRange sign bits (to_ℤ w)
  pub congruent : IsCongruent (2 ^ bits) z (to_ℤ w)

less_cases :
    (a b : ℤ)
    → ((is_less (compare_ℤ a b) ≡ true) × (a <ℤ b)) ⊎ ((is_less (compare_ℤ a b) ≡ false) × (b ≤ℤ a))
less_cases a b = ground arith

IsSigned-low :
    (bits : ℕ) (z w : ℤ)
    → Residue (suc bits) z w
    → w <ℤ pos (2 ^ bits)
    → IsSigned (suc bits) w × IsCongruent (2 ^ suc bits) z w
IsSigned-low bits z w ((lo, hi), c) h =
    let e : 2 ^ (suc bits - 1) ≡ 2 ^ bits = ap (λ (n : ℕ). 2 ^ n) (omega arith) in
    let m = minus_parts (2 ^ (suc bits - 1)) in ((omega (arith, m, e), omega (arith, e)), c)

IsSigned-high :
    (bits : ℕ) (z w : ℤ)
    → Residue (suc bits) z w
    → pos (2 ^ bits) ≤ℤ w
    → IsSigned (suc bits) (w -ℤ pos (2 ^ suc bits))
      × IsCongruent (2 ^ suc bits) z (w -ℤ pos (2 ^ suc bits))
IsSigned-high bits z w ((lo, hi), (k, c)) h =
    let e : 2 ^ (suc bits - 1) ≡ 2 ^ bits = ap (λ (n : ℕ). 2 ^ n) (omega arith) in
    let m = minus_parts (2 ^ (suc bits - 1)) in
    let twice = pow-suc 2 bits in
    let next = mul_next (2 ^ suc bits) k in
    (
      (omega (int_laws, m, e, twice), omega (int_laws, e, twice)),
      (
        k +ℤ pos 1,
        omega (int_laws, ap pos_part next, ap neg_part next, ap pos_part c, ap neg_part c),
      ),
    )

reinterpreted_lem :
    (sign : Bool) (bits : ℕ) (z : ℤ) (w : Anyint)
    → IsValid w
    → (sign ≡ true → 0 < bits)
    → Residue bits z (to_ℤ w)
    → (w' : Anyint) × (reinterpreted sign bits w ≡ some w') × IsWrapped sign bits z w'
reinterpreted_lem false bits z w v h u =
    (w, refl, record { valid = v; in_range = u.0; congruent = u.1 })
reinterpreted_lem true zero z w v h u = absurd (omega (arith, h refl))
reinterpreted_lem true (suc bits) z w v h u =
    let half = power-Natural bits in
    let m = power-Natural (suc bits) in
    let c =
      cmp_lem w (shl (from_u64 1) bits) v half.valid
      ∙ ap (compare_ℤ (to_ℤ w)) (to_ℤ-Natural _ _ half) in
    elim (less_cases (to_ℤ w) (pos (2 ^ bits))) [
      | inl (test, low) ↦
          let s = IsSigned-low bits z (to_ℤ w) u low in
          let t = ap is_less c ∙ test in
          (w, rw t, record { valid = v; in_range = s.0; congruent = s.1 })
      | inr (test, top) ↦
          let d = sub_lem w (modulus_of (suc bits)) v m.valid in
          let e = d.1 ∙ ap (λ n. to_ℤ w -ℤ n) (to_ℤ-Natural _ _ m) in
          let s = IsSigned-high bits z (to_ℤ w) u top in
          let t = ap is_less c ∙ test in
          (
            sub w (modulus_of (suc bits)),
            rw t,
            record {
              valid = d.0;
              in_range = subst (IsSigned (suc bits)) (sym e) s.0;
              congruent = subst (IsCongruent (2 ^ suc bits) z) (sym e) s.1;
            },
          )
    ]

-- For a machine type with at least one bit, or an unsigned one, `wrap_int_value` returns an
-- integer in the range of the type that is equal to its argument modulo `2 ^ bits`.
pub wrap_int_value_lem :
    (ptr_width : ℕ) (ty : Ty) (value : Anyint) (sign : Bool) (bits : ℕ)
    → IsValid value
    → int_shape ptr_width ty ≡ some (sign, bits)
    → (sign ≡ true → 0 < bits)
    → (w : Anyint) × (wrap_int_value ptr_width ty value ≡ some w)
      × IsWrapped sign bits (to_ℤ value) w
unfolding wrap_int_value
wrap_int_value_lem ptr_width ty value sign bits v shape h =
    let m = power-Natural bits in
    let (q, r, _, returned, _, rv, t) =
      div_rem_lem value (modulus_of bits) v m.valid (modulus_nonzero bits) in
    let t' = subst (λ b. IsTruncated (to_ℤ value) b (to_ℤ q) (to_ℤ r)) (to_ℤ-Natural _ _ m) t in
    let n = normalized_lem bits (to_ℤ value) (to_ℤ q) r rv t' in
    let (w, e, wrapped) =
      reinterpreted_lem sign bits (to_ℤ value) (normalized r (modulus_of bits)) n.0 h n.1 in
    (w, rw (shape, returned) e, wrapped)
