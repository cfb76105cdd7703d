-- ===== src/Anyint/Twos.antt =====
-- src/int.rs: two's complement, `twos_complement_limbs` and `from_twos_complement_limbs`.
use vif.Prelude.{
  ℕ, zero, suc, ◌+◌, ◌-◌, ◌*◌, ◌/◌, ◌^◌, ◌≤◌, ◌<◌, List, [], ◌∷◌, Bool, true, false, not, ◌≡◌, refl,
  sym, ap, ◌∙◌, arith, ◌==◌, leb, if◌then◌else◌, length, Bool-cases, inl, inr,
}
use mathlib.Core.Path.{subst}
use vif.Prelude.Int.{ℤ, pos}
use vif.Anyint.Limbs.{base, u128, as_u64, high, IsLimbs, value, span, span_pos}
use vif.Anyint.Arith.{negative_pos}
use vif.Anyint.Sign.{Anyint, normalize, IsValid, to_ℤ, signed, normalize_lem, Computes}

-- `vec![0; len]`, with the limbs written over its start.
pub pad : ℕ → List ℕ → List ℕ
pad zero limbs = []
pad (suc len) [] = 0 ∷ pad len []
pad (suc len) (x ∷ limbs) = x ∷ pad len limbs

-- `*limb = !*limb`, for each limb.
invert : List ℕ → List ℕ
invert [] = []
invert (x ∷ limbs) = (base - 1 - x) ∷ invert limbs

-- The loop that adds the carry, until there is none.
add_carry : List ℕ → ℕ → List ℕ
add_carry [] carry = []
add_carry (x ∷ limbs) carry =
    let sum = u128 (x + carry) in
    let rest = add_carry limbs (high sum) in as_u64 sum ∷ (if high sum == 0 then limbs else rest)

-- The two loops that both functions have.
unfoldable pub negated : List ℕ → List ℕ
unfolding invert add_carry
negated limbs = add_carry (invert limbs) 1

unfoldable pub twos_complement_limbs : Anyint → ℕ → List ℕ
unfolding pad
twos_complement_limbs x len = if x.negative then negated (pad len x.limbs) else pad len x.limbs

-- `limbs.last().is_some_and(|limb| (limb >> 63) != 0)`
abbrev pub top_bit : List ℕ → Bool
top_bit [] = false
top_bit (x ∷ []) = not (x / 2 ^ 63 == 0)
top_bit (x ∷ y ∷ ys) = top_bit (y ∷ ys)

unfoldable pub from_twos_complement_limbs : List ℕ → Anyint
from_twos_complement_limbs limbs =
    normalize
      (record { negative = top_bit limbs; limbs = if top_bit limbs then negated limbs else limbs })

pub value-pad :
    (len : ℕ) (limbs : List ℕ) → length limbs ≤ len → value (pad len limbs) ≡ value limbs
unfolding pad
value-pad zero [] h = refl
value-pad zero (x ∷ limbs) h = elim h [ ]
value-pad (suc len) [] h = omega (arith, value-pad len [] (omega arith))
value-pad (suc len) (x ∷ limbs) h = omega (arith, value-pad len limbs (omega arith))

pub pad-IsLimbs :
    (len : ℕ) (limbs : List ℕ)
    → IsLimbs limbs
    → IsLimbs (pad len limbs) × (length (pad len limbs) ≡ len)
unfolding pad
pad-IsLimbs zero limbs il = (tt, refl)
pad-IsLimbs (suc len) [] il =
    let ih = pad-IsLimbs len [] tt in ((omega arith, ih.0), omega (arith, ih.1))
pad-IsLimbs (suc len) (x ∷ limbs) il =
    let ih = pad-IsLimbs len limbs il.1 in ((il.0, ih.0), omega (arith, ih.1))

invert_lem :
    (limbs : List ℕ)
    → IsLimbs limbs
    → (value (invert limbs) + value limbs + 1 ≡ span (length limbs))
      × IsLimbs (invert limbs)
      × (length (invert limbs) ≡ length limbs)
unfolding invert
invert_lem [] il = (omega arith, tt, refl)
invert_lem (x ∷ limbs) il =
    let ih = invert_lem limbs il.1 in
    (omega (arith, ih.0, il.0), (omega arith, ih.1), omega (arith, ih.2))

add_carry_lem :
    (limbs : List ℕ) (carry : ℕ)
    → IsLimbs limbs
    → carry ≤ 1
    → value limbs + carry < span (length limbs)
    → (value (add_carry limbs carry) ≡ value limbs + carry)
      × IsLimbs (add_carry limbs carry)
      × (length (add_carry limbs carry) ≡ length limbs)
unfolding add_carry
add_carry_lem [] carry il h room = (omega arith, tt, refl)
add_carry_lem (x ∷ limbs) carry il h room = elim (Bool-cases (high (u128 (x + carry)) == 0)) [
  | inl z ↦
      let e : high (u128 (x + carry)) ≡ 0 = ground arith in
      rw z (omega (arith, il.0), (omega arith, il.1), omega arith)
  | inr nz ↦
      let e : high (u128 (x + carry)) ≡ 1 = ground (arith, il.0) in
      let next =
        add_carry_lem limbs (high (u128 (x + carry))) il.1 (omega arith) (omega (arith, il.0)) in
      rw nz (omega (arith, next.0, il.0), (omega arith, next.1), omega (arith, next.2))
]

-- Two's complement: the number that is missing to the next power of the base.
pub negated_lem :
    (limbs : List ℕ)
    → IsLimbs limbs
    → 0 < value limbs
    → (value (negated limbs) ≡ span (length limbs) - value limbs)
      × IsLimbs (negated limbs)
      × (length (negated limbs) ≡ length limbs)
unfolding negated
negated_lem limbs il h =
    let i = invert_lem limbs il in
    let len = ap span i.2 in
    let a = add_carry_lem (invert limbs) 1 i.1 (omega arith) (omega (arith, i.0, len)) in
    (omega (arith, a.0, i.0), a.1, omega (arith, a.2, i.2))

-- The integer that `v` stands for in two's complement below `s`.
abbrev pub signed_below : ℕ → ℕ → ℤ
signed_below s v = if leb s (2 * v) then signed true (s - v) else pos v

-- A limb below does not change the highest digit.
leb_word :
    (t v x : ℕ) → x < base → leb (base * t) (2 * v) ≡ leb (base * (base * t)) (2 * (x + base * v))
leb_word t v x h = ground arith

-- The highest digit of the last limb is the highest digit of the number.
top_bit_lem :
    (x : ℕ) (xs : List ℕ)
    → IsLimbs (x ∷ xs)
    → top_bit (x ∷ xs) ≡ leb (span (suc (length xs))) (2 * value (x ∷ xs))
top_bit_lem x [] il = ground (arith, il.0)
top_bit_lem x (y ∷ ys) il =
    top_bit_lem y ys il.1 ∙ leb_word (span (length ys)) (value (y ∷ ys)) x il.0

signed_low_half : (s v : ℕ) → 2 * v < s → signed_below s v ≡ pos v
signed_low_half s v h = ground arith

signed_high_half : (s v : ℕ) → 0 < v → 2 * v < s → signed_below s (s - v) ≡ signed true v
signed_high_half s v h room =
    let test : leb s (2 * (s - v)) ≡ true = ground arith in
    let same : s - (s - v) ≡ v = omega arith in rw test (ap (signed true) same)

negative_value : (xs : List ℕ) → IsValid (record { negative = true; limbs = xs }) → 0 < value xs
negative_value xs v = negative_pos xs v.trimmed v.signed_zero

-- Two's complement of enough limbs: what an integer of fewer digits becomes.
pub twos_complement_limbs_lem :
    (x : Anyint) (len : ℕ)
    → IsValid x
    → length x.limbs ≤ len
    → 2 * value x.limbs < span len
    → (signed_below (span len) (value (twos_complement_limbs x len)) ≡ to_ℤ x)
      × IsLimbs (twos_complement_limbs x len)
      × (length (twos_complement_limbs x len) ≡ len)
unfolding twos_complement_limbs
twos_complement_limbs_lem x len v fits room = go x.negative x.limbs v fits room
  where
    go :
        (b : Bool) (xs : List ℕ)
        → IsValid (record { negative = b; limbs = xs })
        → length xs ≤ len
        → 2 * value xs < span len
        → (signed_below (span len) (value (if b then negated (pad len xs) else pad len xs))
            ≡ signed b (value xs))
          × IsLimbs (if b then negated (pad len xs) else pad len xs)
          × (length (if b then negated (pad len xs) else pad len xs) ≡ len)
    go false xs v fits room =
        let p = pad-IsLimbs len xs v.words in
        let e = value-pad len xs fits in
        (ap (signed_below (span len)) e ∙ signed_low_half (span len) (value xs) room, p.0, p.1)
    go true xs v fits room =
        let p = pad-IsLimbs len xs v.words in
        let e = value-pad len xs fits in
        let some_value = negative_value xs v in
        let n = negated_lem (pad len xs) p.0 (omega (arith, e, some_value)) in
        let same : value (negated (pad len xs)) ≡ span len - value xs =
          omega (arith, n.0, e, ap span p.1) in
        (
          ap (signed_below (span len)) same
              ∙ signed_high_half (span len) (value xs) some_value room,
          n.1,
          n.2 ∙ p.1,
        )

from_sign_lem :
    (b : Bool) (limbs : List ℕ)
    → IsLimbs limbs
    → leb (span (length limbs)) (2 * value limbs) ≡ b
    → Computes
        (normalize (record { negative = b; limbs = if b then negated limbs else limbs }))
        (signed_below (span (length limbs)) (value limbs))
from_sign_lem false limbs il e =
    let r = normalize_lem (record { negative = false; limbs = limbs }) il in (r.0, rw e r.1)
from_sign_lem true limbs il e =
    let some_value : 0 < value limbs = ground (arith, span_pos (length limbs)) in
    let n = negated_lem limbs il some_value in
    let r = normalize_lem (record { negative = true; limbs = negated limbs }) n.1 in
    (r.0, rw e (r.1 ∙ ap (signed true) n.0))

-- Every list of limbs is read as the integer that it stands for in two's complement.
pub from_twos_complement_limbs_lem :
    (x : ℕ) (xs : List ℕ)
    → IsLimbs (x ∷ xs)
    → Computes
        (from_twos_complement_limbs (x ∷ xs))
        (signed_below (span (suc (length xs))) (value (x ∷ xs)))
unfolding from_twos_complement_limbs
from_twos_complement_limbs_lem x xs il =
    subst
      (λ b.
        Computes
          (normalize (record { negative = b; limbs = if b then negated (x ∷ xs) else x ∷ xs }))
          (signed_below (span (suc (length xs))) (value (x ∷ xs))))
      (sym (top_bit_lem x xs il))
      (from_sign_lem (leb (span (suc (length xs))) (2 * value (x ∷ xs))) (x ∷ xs) il refl)
