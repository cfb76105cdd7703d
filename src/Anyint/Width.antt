-- ===== src/Anyint/Width.antt =====
-- src/int.rs: how many bits an `Anyint` takes, `significant_bits`, `abs_cmp_pow2`,
-- `fits_unsigned_bits`, `fits_signed_bits` and `to_u64`.
use vif.Prelude.{
  ℕ, zero, suc, ◌+◌, ◌-◌, ◌*◌, ◌/◌, ◌%◌, ◌^◌, ◌≤◌, ◌<◌, List, [], ◌∷◌, Bool, true, false, not, ◌&&◌,
  ◌||◌, ◌≡◌, refl, sym, ap, ◌∙◌, arith, compare, Ordering, if◌then◌else◌, Bool-cases, ◌⊎◌, inl, inr,
  Option, none, some, length, take, get_or, ◌==◌, leb, ltb, ◌↔◌, ltb→lt,
}
use Prim.Native.Nat.{lt, eq, gt}
use native.Mathlib.Nat.{mul_assoc, pow-suc}
use vif.Prelude.Powers.{pow_pos, pow-add, pow_le_pow}
use vif.Anyint.Limbs.{base, IsLimbs, IsTrimmed, value, span, value-lt-span}
use vif.Anyint.Compare.{value_pos_of_IsTrimmed}
use vif.Anyint.Shift.{span-pow, shift-span}
use vif.Anyint.Sign.{Anyint}

-- `slice.last()`
abbrev pub last? : List ℕ → Option ℕ
last? [] = none
last? (x ∷ []) = some x
last? (x ∷ y ∷ ys) = last? (y ∷ ys)

-- The bits of a word up to its highest one, halving `fuel` times at most.
bit_length : ℕ → ℕ → ℕ
bit_length zero x = 0
bit_length (suc fuel) x = let rest = bit_length fuel (x / 2) in if x == 0 then 0 else suc rest

-- `u64::leading_zeros`; 64 halvings take any word to 0.
leading_zeros : ℕ → ℕ
leading_zeros x = 64 - bit_length 64 x

abbrev bits_above : List ℕ → Option ℕ → ℕ
bits_above limbs none = 0
bits_above limbs (some last) = (length limbs - 1) * 64 + (64 - leading_zeros last)

unfoldable pub significant_bits : List ℕ → ℕ
unfolding leading_zeros bit_length
significant_bits limbs = bits_above limbs (last? limbs)

abbrev any_nonzero : List ℕ → Bool
any_nonzero [] = false
any_nonzero (x ∷ xs) = not (x == 0) || any_nonzero xs

-- The two `match`es of `abs_cmp_pow2`, on the comparisons of the lengths and of the top limb.
abbrev cmp_top : Ordering → Bool → Ordering
cmp_top eq rest_nonzero = if rest_nonzero then gt else eq
cmp_top order rest_nonzero = order

abbrev cmp_len : Ordering → Ordering → Ordering
cmp_len lt inner = lt
cmp_len gt inner = gt
cmp_len eq inner = inner

unfoldable pub abs_cmp_pow2 : List ℕ → ℕ → Ordering
abs_cmp_pow2 limbs bit =
    let limb = bit / 64 in
    let top = 2 ^ (bit % 64) in
    cmp_len (compare (length limbs) (limb + 1))
      (cmp_top (compare (get_or limbs limb 0) top) (any_nonzero (take limb limbs)))

unfoldable pub fits_unsigned_bits : Anyint → ℕ → Bool
fits_unsigned_bits x bits = not x.negative && leb (significant_bits x.limbs) bits

abbrev pub is_not_greater : Ordering → Bool
is_not_greater gt = false
is_not_greater _ = true

unfoldable pub fits_signed_bits : Anyint → ℕ → Bool
fits_signed_bits x bits =
    if x.negative
    then is_not_greater (abs_cmp_pow2 x.limbs (bits - 1))
    else ltb (significant_bits x.limbs) bits

unfoldable pub to_u64 : Anyint → Option ℕ
to_u64 x = if x.negative || ltb 1 (length x.limbs) then none else some (get_or x.limbs 0 0)

bit_length_lem :
    (fuel x k : ℕ)
    → x < 2 ^ fuel
    → (bit_length fuel x ≤ k → x < 2 ^ k) × (x < 2 ^ k → bit_length fuel x ≤ k)
unfolding bit_length
bit_length_lem zero x k h = (λ _. omega (arith, pow_pos k), λ _. omega arith)
bit_length_lem (suc fuel) x zero h = ground arith
bit_length_lem (suc fuel) x (suc k) h =
    let ih = bit_length_lem fuel (x / 2) k (omega (arith, pow-suc 2 fuel)) in
    ground (arith, ih, pow-suc 2 k, pow_pos k)

last?-some : (y : ℕ) (ys : List ℕ) → (z : ℕ) × (last? (y ∷ ys) ≡ some z)
last?-some y [] = (y, refl)
last?-some y (z ∷ zs) = last?-some z zs

-- `significant_bits` of the limbs above the lowest one.
significant_bits-cons :
    (x y : ℕ) (ys : List ℕ) → significant_bits (x ∷ y ∷ ys) ≡ 64 + significant_bits (y ∷ ys)
unfolding significant_bits
significant_bits-cons x y ys = let (z, e) = last?-some y ys in rw e (omega arith)

significant_bits_one : (x : ℕ) → x < base → significant_bits (x ∷ []) ≡ bit_length 64 x
unfolding significant_bits
significant_bits_one x h = let fits = (bit_length_lem 64 x 64 h).1 h in omega arith

-- At most `k` bits, exactly when the number is below `2 ^ k`.
pub significant_bits_lem :
    (limbs : List ℕ) (k : ℕ)
    → IsLimbs limbs
    → IsTrimmed limbs
    → (significant_bits limbs ≤ k) ↔ (value limbs < 2 ^ k)
significant_bits_lem [] k il t = (λ _. pow_pos k, λ _. unfold significant_bits in omega arith)
significant_bits_lem (x ∷ []) k il t =
    let b = bit_length_lem 64 x k il.0 in
    let e = significant_bits_one x il.0 in
    (λ h. omega (arith, b.0 (omega arith)), λ h. omega (arith, b.1 (omega arith)))
significant_bits_lem (x ∷ y ∷ ys) k il t =
    let e = significant_bits-cons x y ys in
    let v = value_pos_of_IsTrimmed y ys t in
    elim (Bool-cases (ltb k 64)) [
      | inl few ↦
          let k' : k ≤ 64 = omega (arith, ltb→lt k 64 few) in
          let below = pow_le_pow k 64 k' in
          (λ h. absurd (omega (arith, ltb→lt k 64 few)), λ h. absurd (omega arith))
      | inr many ↦
          let k' : 64 ≤ k = ground arith in
          let ih = significant_bits_lem (y ∷ ys) (k - 64) il.1 t in
          let cut = pow-add 64 (k - 64) in
          let same : 2 ^ k ≡ 2 ^ (64 + (k - 64)) = ap (λ (n : ℕ). 2 ^ n) (omega arith) in
          (λ h. omega (arith, ih.0 (omega arith), il.0), λ h. omega (arith, ih.1 (omega arith)))
    ]

any_nonzero_lem :
    (xs : List ℕ)
    → ((any_nonzero xs ≡ false) × (value xs ≡ 0)) ⊎ ((any_nonzero xs ≡ true) × (0 < value xs))
any_nonzero_lem [] = inl (refl, refl)
any_nonzero_lem (x ∷ xs) = ground (arith, any_nonzero_lem xs)

cmp_top_word :
    (o : Ordering) (rest : Bool) (x v p : ℕ)
    → cmp_top o rest ≡ compare v p
    → x < base
    → cmp_top o (not (x == 0) || rest) ≡ compare (x + base * v) (base * p)
cmp_top_word o rest x v p e h = ground arith

-- The comparison of the top limb, then of the limbs below.
cmp_top_lem :
    (k : ℕ) (limbs : List ℕ) (top : ℕ)
    → length limbs ≡ suc k
    → IsLimbs limbs
    → cmp_top (compare (get_or limbs k 0) top) (any_nonzero (take k limbs))
      ≡ compare (value limbs) (span k * top)
cmp_top_lem k [] top e il = absurd (omega arith)
cmp_top_lem zero (x ∷ []) top e il = ground arith
cmp_top_lem zero (x ∷ y ∷ ys) top e il = absurd (omega arith)
cmp_top_lem (suc k) (x ∷ xs) top e il =
    cmp_top_word (compare (get_or xs k 0) top) (any_nonzero (take k xs)) x (value xs) (span k * top)
      (cmp_top_lem k xs top (omega arith) il.1) il.0
    ∙ ap (compare (x + base * value xs)) (sym (mul_assoc base (span k) top))

pub span_mono : (m n : ℕ) → m ≤ n → span m ≤ span n
span_mono m n h = omega (arith, span-pow m, span-pow n, pow_le_pow (64 * m) (64 * n) (omega arith))

pub value-ge-span : (x : ℕ) (xs : List ℕ) → IsTrimmed (x ∷ xs) → span (length xs) ≤ value (x ∷ xs)
value-ge-span x [] t = omega arith
value-ge-span x (y ∷ ys) t = omega (arith, value-ge-span y ys t)

value-lt-pow :
    (limbs : List ℕ) (bit : ℕ) → IsLimbs limbs → length limbs ≤ bit / 64 → value limbs < 2 ^ bit
value-lt-pow limbs bit il h = omega (
  arith,
  value-lt-span limbs il,
  span-pow (length limbs),
  pow_le_pow (64 * length limbs) bit (omega arith),
)

pow-lt-value :
    (limbs : List ℕ) (bit : ℕ)
    → IsTrimmed limbs
    → bit / 64 + 1 < length limbs
    → 2 ^ bit < value limbs
pow-lt-value [] bit t h = elim h [ ]
pow-lt-value (x ∷ xs) bit t h = omega (
  arith,
  value-ge-span x xs t,
  span-pow (length xs),
  pow_le_pow (suc bit) (64 * length xs) (omega arith),
  pow-suc 2 bit,
  pow_pos bit,
)

-- The comparison with a power of two.
pub abs_cmp_pow2_lem :
    (limbs : List ℕ) (bit : ℕ)
    → IsLimbs limbs
    → IsTrimmed limbs
    → abs_cmp_pow2 limbs bit ≡ compare (value limbs) (2 ^ bit)
unfolding abs_cmp_pow2
abs_cmp_pow2_lem limbs bit il t = go (compare (length limbs) (bit / 64 + 1)) refl
  where
    inner : Ordering
    inner =
        cmp_top (compare (get_or limbs (bit / 64) 0) (2 ^ (bit % 64)))
          (any_nonzero (take (bit / 64) limbs))

    go :
        (o : Ordering)
        → compare (length limbs) (bit / 64 + 1) ≡ o
        → cmp_len o inner ≡ compare (value limbs) (2 ^ bit)
    go lt e =
        let short : length limbs ≤ bit / 64 = ground arith in
        let below = value-lt-pow limbs bit il short in ground arith
    go gt e =
        let long : bit / 64 + 1 < length limbs = ground arith in
        let above = pow-lt-value limbs bit t long in ground arith
    go eq e =
        let n : length limbs ≡ suc (bit / 64) = ground arith in
        cmp_top_lem (bit / 64) limbs (2 ^ (bit % 64)) n il
        ∙ ap (compare (value limbs)) (sym (shift-span bit))
