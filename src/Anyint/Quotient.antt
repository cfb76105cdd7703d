-- ===== src/Anyint/Quotient.antt =====
-- src/int.rs: `/` and `%` of `Anyint`. A zero divisor fails the assertion, which is `none`.
use vif.Prelude.{
  ℕ, ◌+◌, ◌*◌, ◌/◌, ◌%◌, ◌≤◌, ◌<◌, List, [], ◌∷◌, Bool, true, false, not, ◌&&◌, ◌≡◌, refl, sym, ap,
  ◌∙◌, arith, if◌then◌else◌, Option, none, some,
}
use mathlib.Core.Path.{subst₂}
use native.Mathlib.Nat.{div-add-mod, mod-lt}
use vif.Prelude.Int.{ℤ, pos, pos_part, neg_part, ◌+ℤ◌, ◌*ℤ◌, ◌≤ℤ◌}
use vif.Anyint.Limbs.{IsTrimmed, value}
use vif.Anyint.Compare.{value_pos_of_IsTrimmed}
use vif.Anyint.Sign.{Anyint, is_zero, is_empty, bool_xor, IsValid, to_ℤ, signed}
use vif.Anyint.Arith.{minus_parts, signed_add, signed_mul}
use vif.Anyint.Division.{div_rem_abs}
use vif.Anyint.Natural.{Natural, Natural-of_limbs}
use vif.Anyint.LongDivision.{div_rem_abs_lem}

-- `let mut abs = self.clone(); abs.negative = false;`
abbrev magnitude : Anyint → Anyint
magnitude x = record x { negative = false }

unfoldable pub div : Anyint → Anyint → Option Anyint
div x y =
    let q = (div_rem_abs (magnitude x) (magnitude y)).quotient in
    if is_zero y
    then none
    else some (record q { negative = not (is_zero q) && bool_xor x.negative y.negative })

unfoldable pub rem : Anyint → Anyint → Option Anyint
rem x y =
    let r = (div_rem_abs (magnitude x) (magnitude y)).remainder in
    if is_zero y then none else some (record r { negative = not (is_zero r) && x.negative })

-- |a|
abbrev pub abs_ℕ : ℤ → ℕ
abs_ℕ a = pos_part a + neg_part a

-- Division that rounds towards zero: the remainder is smaller than the divisor and has the sign
-- of the dividend.
pub record IsTruncated (a b q r : ℤ) : Type 0 where
  pub whole : b *ℤ q +ℤ r ≡ a
  pub below : abs_ℕ r < abs_ℕ b
  pub sign_pos : pos 0 ≤ℤ a → pos 0 ≤ℤ r
  pub sign_neg : a ≤ℤ pos 0 → r ≤ℤ pos 0

give_sign_fields :
    (sign b : Bool) (xs : List ℕ) (n : ℕ)
    → Natural (record { negative = sign; limbs = xs }) n
    → IsValid (record { negative = not (is_empty xs) && b; limbs = xs })
      × (signed (not (is_empty xs) && b) (value xs) ≡ signed b n)
give_sign_fields sign true [] n h =
    (record { words = tt; trimmed = tt; signed_zero = λ _. refl }, ap (signed true) h.number)
give_sign_fields sign false [] n h =
    (record { words = tt; trimmed = tt; signed_zero = λ _. refl }, ap (signed false) h.number)
give_sign_fields sign b (x ∷ xs) n h = (
  record { words = h.valid.words; trimmed = h.valid.trimmed; signed_zero = λ e. cc },
  ap (signed b) h.number,
)

give_sign :
    (q : Anyint) (b : Bool) (n : ℕ)
    → Natural q n
    → let s = record q { negative = not (is_zero q) && b } in IsValid s × (to_ℤ s ≡ signed b n)
give_sign q b n h = give_sign_fields q.negative b q.limbs n h

magnitude-Natural : (x : Anyint) → IsValid x → Natural (magnitude x) (value x.limbs)
magnitude-Natural x v = Natural-of_limbs (magnitude x) _ refl v.words v.trimmed refl

pub value_pos : (x : Anyint) → IsValid x → is_zero x ≡ false → 0 < value x.limbs
value_pos x v h = go x.limbs v.trimmed h
  where
    go : (xs : List ℕ) → IsTrimmed xs → is_empty xs ≡ false → 0 < value xs
    go [] t e = cc
    go (y ∷ ys) t e = value_pos_of_IsTrimmed y ys t

xor_cancel : (a b : Bool) → bool_xor b (bool_xor a b) ≡ a
xor_cancel true true = refl
xor_cancel true false = refl
xor_cancel false true = refl
xor_cancel false false = refl

signed-abs : (b : Bool) (n : ℕ) → abs_ℕ (signed b n) ≡ n
signed-abs true n = omega (arith, minus_parts n)
signed-abs false n = omega arith

IsTruncated-signed :
    (a b : Bool) (m n : ℕ)
    → 0 < n
    → IsTruncated (signed a m) (signed b n) (signed (bool_xor a b) (m / n)) (signed a (m % n))
IsTruncated-signed a b m n h =
    let product = signed_mul b (bool_xor a b) n (m / n) in
    let sign = ap (λ s. signed s (n * (m / n))) (xor_cancel a b) in
    let total = signed_add a (n * (m / n)) (m % n) in
    record {
      whole =
          ap (λ z. z +ℤ signed a (m % n)) (sym product ∙ sign)
          ∙ sym total
          ∙ ap (signed a) (div-add-mod m n);
      below = omega (arith, signed-abs a (m % n), signed-abs b n, mod-lt m h);
      sign_pos = sign_pos_lem a m (m % n) (omega arith);
      sign_neg = sign_neg_lem a m (m % n) (omega arith);
    }
  where
    sign_pos_lem : (a : Bool) (m r : ℕ) → r ≤ m → pos 0 ≤ℤ signed a m → pos 0 ≤ℤ signed a r
    sign_pos_lem true m r h k = omega (arith, minus_parts m, minus_parts r)
    sign_pos_lem false m r h k = omega arith

    sign_neg_lem : (a : Bool) (m r : ℕ) → r ≤ m → signed a m ≤ℤ pos 0 → signed a r ≤ℤ pos 0
    sign_neg_lem true m r h k = omega (arith, minus_parts m, minus_parts r)
    sign_neg_lem false m r h k = omega arith

-- `/` and `%` by an integer that is not zero return, and what they return is the truncated
-- quotient and remainder, in normal form.
pub div_rem_lem :
    (x y : Anyint)
    → IsValid x
    → IsValid y
    → is_zero y ≡ false
    → (q : Anyint) × (r : Anyint) × (div x y ≡ some q)
      × (rem x y ≡ some r)
      × IsValid q
      × IsValid r
      × IsTruncated (to_ℤ x) (to_ℤ y) (to_ℤ q) (to_ℤ r)
unfolding div rem
div_rem_lem x y v w h =
    let n = value y.limbs in
    let m = value x.limbs in
    let d =
      div_rem_abs_lem (magnitude x) (magnitude y) m n (magnitude-Natural x v)
        (magnitude-Natural y w) (value_pos y w h) in
    let result = div_rem_abs (magnitude x) (magnitude y) in
    let q = give_sign result.quotient (bool_xor x.negative y.negative) (m / n) d.quotient_is in
    let r = give_sign result.remainder x.negative (m % n) d.remainder_is in
    let t = IsTruncated-signed x.negative y.negative m n (value_pos y w h) in
    (_, _, rw h, rw h, q.0, r.0, subst₂ (IsTruncated (to_ℤ x) (to_ℤ y)) (sym q.1) (sym r.1) t)
