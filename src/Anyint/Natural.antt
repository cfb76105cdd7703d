-- ===== src/Anyint/Natural.antt =====
-- An `Anyint` that stands for a natural number, in normal form.
use vif.Prelude.{ℕ, zero, suc, ◌<◌, List, Bool, true, false, ◌≡◌, refl, ap, ◌∙◌, arith, ◌≢◌}
use vif.Prelude.Int.{pos}
use vif.Anyint.Limbs.{IsLimbs, IsTrimmed, value}
use vif.Anyint.Sign.{minus, Anyint, IsValid, to_ℤ, signed}
use vif.Anyint.Arith.{negative_pos}

-- A natural number in normal form.
pub record Natural (x : Anyint) (n : ℕ) : Type 0 where
  pub valid : IsValid x
  pub nonneg : x.negative ≡ false
  pub number : value x.limbs ≡ n

minus-ne-pos : (m n : ℕ) → 0 < m → minus m ≢ pos n
minus-ne-pos zero n h = elim h [ ]
minus-ne-pos (suc m) n h = λ e. cc

Natural-fields :
    (b : Bool) (xs : List ℕ) (n : ℕ)
    → IsValid (record { negative = b; limbs = xs })
    → signed b (value xs) ≡ pos n
    → Natural (record { negative = b; limbs = xs }) n
Natural-fields false xs n v e = record { valid = v; nonneg = refl; number = ground arith }
Natural-fields true xs n v e =
    absurd (minus-ne-pos (value xs) n (negative_pos xs v.trimmed v.signed_zero) e)

pub Natural-of_to_ℤ : (x : Anyint) (n : ℕ) → IsValid x → to_ℤ x ≡ pos n → Natural x n
Natural-of_to_ℤ x n v e = Natural-fields x.negative x.limbs n v e

pub Natural-of_limbs :
    (x : Anyint) (n : ℕ)
    → x.negative ≡ false
    → IsLimbs x.limbs
    → IsTrimmed x.limbs
    → value x.limbs ≡ n
    → Natural x n
Natural-of_limbs x n s h t e = record {
  valid = record { words = h; trimmed = t; signed_zero = λ _. s };
  nonneg = s;
  number = e;
}

pub to_ℤ-Natural : (x : Anyint) (n : ℕ) → Natural x n → to_ℤ x ≡ pos n
to_ℤ-Natural x n h = ap (λ b. signed b (value x.limbs)) h.nonneg ∙ ap pos h.number
