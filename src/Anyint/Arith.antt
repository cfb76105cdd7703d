-- ===== src/Anyint/Arith.antt =====
-- src/int.rs: `+`, `-`, `*`, negation and the order of `Anyint` are those of the integers.
use mathlib.Core.Bool.{false≢true}
use vif.Prelude.{
  ◌||◌, ℕ, zero, suc, ◌+◌, ◌-◌, ◌*◌, ◌≤◌, ◌<◌, List, [], ◌∷◌, Bool, true, false, not, ◌≡◌, refl,
  sym, ap, ◌∙◌, arith, compare, Ordering, Bool-cases, ◌⊎◌, inl, inr, some,
}
use Prim.Native.Nat.{lt, eq, gt}
use vif.Prelude.Int.{pos, pos_part, neg_part, ◌+ℤ◌, ◌-ℤ◌, ◌*ℤ◌, int_laws, eq_of_parts, +ℤ_comm}
use vif.Anyint.Limbs.{IsLimbs, IsTrimmed, value}
use vif.Anyint.Compare.{abs_cmp, abs_cmp_lem, value_pos_of_IsTrimmed}
use vif.Anyint.Sum.{add_abs, sub_abs, value-add_abs, value-sub_abs}
use vif.Anyint.Product.{mul_limbs_lem}
use vif.Anyint.Sign.{
  Anyint, Computes, IsValid, add, add_unlike, bool_eq, bool_xor, cmp, cmp_signs, compare_ℤ,
  is_empty, is_zero, minus, mul, neg, normalize, normalize_lem, signed, sub, to_ℤ, zero_int,
}

pub minus_parts : (n : ℕ) → (pos_part (minus n) ≡ 0) × (neg_part (minus n) ≡ n)
minus_parts zero = (refl, refl)
minus_parts (suc n) = (refl, refl)

-- What arithmetic on signs and magnitudes means for the integers.
pub signed_neg : (b : Bool) (n : ℕ) → signed (not b) n ≡ pos 0 -ℤ signed b n
signed_neg true n = omega (int_laws, minus_parts n)
signed_neg false n = omega (int_laws, minus_parts n)

pub signed_add : (b : Bool) (m n : ℕ) → signed b (m + n) ≡ signed b m +ℤ signed b n
signed_add true m n = omega (int_laws, minus_parts m, minus_parts n, minus_parts (m + n))
signed_add false m n = omega int_laws

pub signed_sub : (b : Bool) (m n : ℕ) → n ≤ m → signed b (m - n) ≡ signed b m +ℤ signed (not b) n
signed_sub true m n h = omega (int_laws, minus_parts m, minus_parts (m - n))
signed_sub false m n h = omega (int_laws, minus_parts n)

pub signed_mul : (a b : Bool) (m n : ℕ) → signed (bool_xor a b) (m * n) ≡ signed a m *ℤ signed b n
unfolding ◌*ℤ◌
signed_mul true true m n =
    rw ((minus_parts m).0, (minus_parts m).1, (minus_parts n).0, (minus_parts n).1) (ground arith)
signed_mul true false m n = eq_of_parts _ _ (ground (arith, minus_parts m, minus_parts (m * n)))
signed_mul false true m n = eq_of_parts _ _ (ground (arith, minus_parts n, minus_parts (m * n)))
signed_mul false false m n = ground arith

pub signed_zero_lem : (b : Bool) → pos 0 ≡ signed b 0
signed_zero_lem true = refl
signed_zero_lem false = refl

neg_fields :
    (b : Bool) (xs : List ℕ)
    → IsValid (record { negative = b; limbs = xs })
    → Computes (neg (record { negative = b; limbs = xs })) (pos 0 -ℤ signed b (value xs))
unfolding neg
neg_fields true [] v = absurd (false≢true (sym (v.signed_zero refl)))
neg_fields false [] v = (v, signed_neg true 0)
neg_fields b (x ∷ xs) v = (
  record { words = v.words; trimmed = v.trimmed; signed_zero = λ e. cc },
  signed_neg b (value (x ∷ xs)),
)

-- Unary `-` of a valid integer is valid, and stands for its negation.
pub neg_lem : (x : Anyint) → IsValid x → Computes (neg x) (pos 0 -ℤ to_ℤ x)
neg_lem x v = neg_fields x.negative x.limbs v

-- Sums of unlike signs.
add_unlike_lem :
    (x y : Anyint)
    → IsValid x
    → IsValid y
    → y.negative ≡ not x.negative
    → let s = add_unlike (abs_cmp x.limbs y.limbs) x y in
      IsLimbs s.limbs × (to_ℤ s ≡ to_ℤ x +ℤ to_ℤ y)
add_unlike_lem x y v w e =
    rw (abs_cmp_lem x.limbs y.limbs v.words w.words v.trimmed w.trimmed)
      (go (compare (value x.limbs) (value y.limbs)) refl)
  where
    larger_left :
        value y.limbs ≤ value x.limbs
        → IsLimbs (sub_abs x.limbs y.limbs)
          × (signed x.negative (value (sub_abs x.limbs y.limbs)) ≡ to_ℤ x +ℤ to_ℤ y)
    larger_left h =
        let d = value-sub_abs x.limbs y.limbs v.words w.words h in
        (
          d.1,
          ap (signed x.negative) d.0
              ∙ signed_sub x.negative (value x.limbs) (value y.limbs) h
              ∙ ap (λ b. to_ℤ x +ℤ signed b (value y.limbs)) (sym e),
        )

    go :
        (o : Ordering)
        → compare (value x.limbs) (value y.limbs) ≡ o
        → let s = add_unlike o x y in IsLimbs s.limbs × (to_ℤ s ≡ to_ℤ x +ℤ to_ℤ y)
    go eq q = larger_left (ground arith)
    go gt q = larger_left (ground arith)
    go lt q =
        let h : value x.limbs ≤ value y.limbs = ground arith in
        let d = value-sub_abs y.limbs x.limbs w.words v.words h in
        let flip : x.negative ≡ not y.negative = ground arith in
        (
          d.1,
          ap (signed y.negative) d.0
              ∙ signed_sub y.negative (value y.limbs) (value x.limbs) h
              ∙ ap (λ b. to_ℤ y +ℤ signed b (value x.limbs)) (sym flip)
              ∙ +ℤ_comm (to_ℤ y) (to_ℤ x),
        )

bool_eq_cases :
    (a b : Bool) → ((bool_eq a b ≡ true) × (b ≡ a)) ⊎ ((bool_eq a b ≡ false) × (b ≡ not a))
bool_eq_cases a b = ground arith

-- `+` of two valid integers is valid, and stands for their sum.
pub add_lem : (x y : Anyint) → IsValid x → IsValid y → Computes (add x y) (to_ℤ x +ℤ to_ℤ y)
unfolding add
add_lem x y v w = elim (bool_eq_cases x.negative y.negative) [
  | inl (test, same) ↦
      let s = value-add_abs x.limbs y.limbs v.words w.words in
      let n =
        normalize_lem (record { negative = x.negative; limbs = add_abs x.limbs y.limbs }) s.1 in
      rw test (
        n.0,
        n.1
            ∙ ap (signed x.negative) s.0
            ∙ signed_add x.negative (value x.limbs) (value y.limbs)
            ∙ ap (λ b. to_ℤ x +ℤ signed b (value y.limbs)) (sym same),
      )
  | inr (test, unlike) ↦
      let s = add_unlike_lem x y v w unlike in
      let n = normalize_lem (add_unlike (abs_cmp x.limbs y.limbs) x y) s.0 in
      rw test (n.0, n.1 ∙ s.1)
]

-- `-` of two valid integers is valid, and stands for their difference.
pub sub_lem : (x y : Anyint) → IsValid x → IsValid y → Computes (sub x y) (to_ℤ x -ℤ to_ℤ y)
unfolding sub
sub_lem x y v w =
    let n = neg_lem y w in
    let s = add_lem x (neg y) v n.0 in (s.0, s.1 ∙ ap (λ z. to_ℤ x +ℤ z) n.1 ∙ omega int_laws)

zero_factor : (xs ys : List ℕ) → (is_empty xs || is_empty ys) ≡ true → value xs * value ys ≡ 0
zero_factor [] ys h = omega arith
zero_factor (x ∷ xs) [] h = omega arith
zero_factor (x ∷ xs) (y ∷ ys) h = cc

pub zero_int-IsValid : IsValid zero_int
zero_int-IsValid = record { words = tt; trimmed = tt; signed_zero = λ _. refl }

-- `*` of two valid integers returns a valid one that stands for their product: no index is out of
-- bounds.
pub mul_lem :
    (x y : Anyint)
    → IsValid x
    → IsValid y
    → (z : Anyint) × (mul x y ≡ some z) × Computes z (to_ℤ x *ℤ to_ℤ y)
unfolding mul
mul_lem x y v w =
    let (out, returned, words, total) = mul_limbs_lem x.limbs y.limbs v.words w.words in
    let b = bool_xor x.negative y.negative in
    let n = normalize_lem (record { negative = b; limbs = out }) words in
    let means =
      ap (signed b) total ∙ signed_mul x.negative y.negative (value x.limbs) (value y.limbs) in
    elim (Bool-cases (is_zero x || is_zero y)) [
      | inl z ↦
          let nothing = zero_factor x.limbs y.limbs z in
          (
            zero_int,
            rw z,
            (
              zero_int-IsValid,
              signed_zero_lem b
                  ∙ ap (signed b) (sym nothing)
                  ∙ signed_mul x.negative y.negative (value x.limbs) (value y.limbs),
            ),
          )
      | inr nz ↦
          (normalize (record { negative = b; limbs = out }), rw (nz, returned), (n.0, n.1 ∙ means))
    ]

pub negative_pos : (xs : List ℕ) → IsTrimmed xs → (is_empty xs ≡ true → true ≡ false) → 0 < value xs
negative_pos [] t h = absurd (false≢true (sym (h refl)))
negative_pos (x ∷ xs) t h = value_pos_of_IsTrimmed x xs t

cmp_fields :
    (a b : Bool) (xs ys : List ℕ)
    → IsValid (record { negative = a; limbs = xs })
    → IsValid (record { negative = b; limbs = ys })
    → cmp_signs a b xs ys ≡ compare_ℤ (signed a (value xs)) (signed b (value ys))
cmp_fields true false xs ys v w =
    let below = negative_pos xs v.trimmed v.signed_zero in ground (arith, minus_parts (value xs))
cmp_fields false true xs ys v w =
    let below = negative_pos ys w.trimmed w.signed_zero in ground (arith, minus_parts (value ys))
cmp_fields false false xs ys v w =
    abs_cmp_lem xs ys v.words w.words v.trimmed w.trimmed ∙ ground arith
cmp_fields true true xs ys v w =
    abs_cmp_lem ys xs w.words v.words w.trimmed v.trimmed
    ∙ ground (arith, minus_parts (value xs), minus_parts (value ys))

-- `cmp` of two valid integers is the order of the integers they stand for.
pub cmp_lem : (x y : Anyint) → IsValid x → IsValid y → cmp x y ≡ compare_ℤ (to_ℤ x) (to_ℤ y)
unfolding cmp
cmp_lem x y v w = cmp_fields x.negative y.negative x.limbs y.limbs v w
