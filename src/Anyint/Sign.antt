-- ===== src/Anyint/Sign.antt =====
-- src/int.rs: the signed integer `Anyint`, its normal form, its order, and `+`, `-` and `*`. `none` of
-- the product is an index out of bounds.
use vif.Prelude.{
  ◌||◌, ℕ, zero, suc, ◌+◌, List, [], ◌∷◌, Bool, true, false, not, ◌≡◌, refl, ap, ◌∙◌, compare,
  Ordering, if◌then◌else◌, Option, none, some,
}
use Prim.Native.Nat.{lt, gt}
use vif.Prelude.Int.{ℤ, pos, negsuc, pos_part, neg_part}
use vif.Anyint.Limbs.{IsLimbs, IsTrimmed, value, trim, value-trim, trim-IsLimbs, trim-IsTrimmed}
use vif.Anyint.Compare.{abs_cmp}
use vif.Anyint.Sum.{add_abs, sub_abs}
use vif.Anyint.Product.{mul_limbs}

pub record Anyint : Type 0 where
  pub negative : Bool
  pub limbs : List ℕ

abbrev pub zero_int : Anyint
zero_int = record { negative = false; limbs = [] }

-- The end of `normalize`: zero is not negative.
abbrev pub with_sign : Bool → List ℕ → Anyint
with_sign negative [] = record { negative = false; limbs = [] }
with_sign negative (x ∷ xs) = record { negative = negative; limbs = x ∷ xs }

abbrev pub normalize : Anyint → Anyint
normalize x = with_sign x.negative (trim x.limbs)

abbrev pub is_empty : List ℕ → Bool
is_empty [] = true
is_empty (x ∷ xs) = false

abbrev pub is_zero : Anyint → Bool
is_zero x = is_empty x.limbs

abbrev pub is_negative : Anyint → Bool
is_negative x = x.negative

-- `From<u64>`; the other unsigned conversions go through it but for `u128`.
abbrev pub from_u64 : ℕ → Anyint
from_u64 n = normalize (record { negative = false; limbs = n ∷ [] })

abbrev pub bool_eq : Bool → Bool → Bool
bool_eq true b = b
bool_eq false b = not b

-- `^` on signs.
abbrev pub bool_xor : Bool → Bool → Bool
bool_xor true b = not b
bool_xor false b = b

unfoldable pub neg : Anyint → Anyint
neg x = if is_zero x then x else record x { negative = not x.negative }

-- The sum of magnitudes of unlike sign: the larger one gives the sign.
abbrev pub add_unlike : Ordering → Anyint → Anyint → Anyint
add_unlike lt x y = record { negative = y.negative; limbs = sub_abs y.limbs x.limbs }
add_unlike _ x y = record { negative = x.negative; limbs = sub_abs x.limbs y.limbs }

unfoldable pub add : Anyint → Anyint → Anyint
add x y = normalize (
    if bool_eq x.negative y.negative
    then record { negative = x.negative; limbs = add_abs x.limbs y.limbs }
    else add_unlike (abs_cmp x.limbs y.limbs) x y)

unfoldable pub sub : Anyint → Anyint → Anyint
sub x y = add x (neg y)

abbrev pub with_sign? : Bool → Option (List ℕ) → Option Anyint
with_sign? negative none = none
with_sign? negative (some limbs) = some (normalize (record { negative = negative; limbs = limbs }))

unfoldable pub mul : Anyint → Anyint → Option Anyint
mul x y =
    if is_zero x || is_zero y
    then some zero_int
    else with_sign? (bool_xor x.negative y.negative) (mul_limbs x.limbs y.limbs)

-- `Ord::cmp`, on the two signs.
abbrev pub cmp_signs : Bool → Bool → List ℕ → List ℕ → Ordering
cmp_signs true false xs ys = lt
cmp_signs false true xs ys = gt
cmp_signs false false xs ys = abs_cmp xs ys
cmp_signs true true xs ys = abs_cmp ys xs

unfoldable pub cmp : Anyint → Anyint → Ordering
cmp x y = cmp_signs x.negative y.negative x.limbs y.limbs

-- What every value of the type satisfies: words, no zero limb at the end, no negative zero.
pub record IsValid (x : Anyint) : Type 0 where
  pub words : IsLimbs x.limbs
  pub trimmed : IsTrimmed x.limbs
  pub signed_zero : is_zero x ≡ true → x.negative ≡ false

-- - n, as an integer.
abbrev pub minus : ℕ → ℤ
minus zero = pos 0
minus (suc n) = negsuc n

abbrev pub signed : Bool → ℕ → ℤ
signed false n = pos n
signed true n = minus n

-- The integer that an `Anyint` stands for.
abbrev pub to_ℤ : Anyint → ℤ
to_ℤ x = signed x.negative (value x.limbs)

-- The order of two integers.
abbrev pub compare_ℤ : ℤ → ℤ → Ordering
compare_ℤ a b = compare (pos_part a + neg_part b) (pos_part b + neg_part a)

pub with_sign-IsValid :
    (b : Bool) (xs : List ℕ)
    → IsLimbs xs
    → IsTrimmed xs
    → IsValid (with_sign b xs) × (to_ℤ (with_sign b xs) ≡ signed b (value xs))
with_sign-IsValid true [] h t = (record { words = tt; trimmed = tt; signed_zero = λ _. refl }, refl)
with_sign-IsValid false [] h t =
    (record { words = tt; trimmed = tt; signed_zero = λ _. refl }, refl)
with_sign-IsValid b (x ∷ xs) h t = (record { words = h; trimmed = t; signed_zero = λ e. cc }, refl)

-- Normalizing makes a valid integer of any limbs, and keeps the number.
pub normalize_lem :
    (x : Anyint) → IsLimbs x.limbs → IsValid (normalize x) × (to_ℤ (normalize x) ≡ to_ℤ x)
normalize_lem x h =
    let r =
      with_sign-IsValid x.negative (trim x.limbs) (trim-IsLimbs x.limbs h)
        (trim-IsTrimmed x.limbs) in
    (r.0, r.1 ∙ ap (signed x.negative) (value-trim x.limbs))

-- Valid, and the integer `z`.
abbrev pub Computes : Anyint → ℤ → Type 0
Computes x z = IsValid x × (to_ℤ x ≡ z)
