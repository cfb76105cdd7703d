-- ===== src/Anyint/Sum.antt =====
-- src/int.rs: sums and differences of magnitudes, `add_abs`, `sub_abs`, `add_small_assign`.
use vif.Prelude.{
  ℕ, zero, suc, ◌+◌, ◌-◌, ◌*◌, ◌≤◌, ◌<◌, max, List, [], ◌∷◌, ◌≡◌, refl, arith, length, get_or, drop,
  ◌==◌, leb, if◌then◌else◌, Bool-cases, leb→le, inl, inr,
}
use vif.Anyint.Limbs.{
  HasTop, HasTop-cons, HasTop-IsTrimmed, IsTrimmed, base, u128, as_u64, high, IsLimbs, value,
}

-- `slice.get(0).copied().unwrap_or(0)` of the limbs not yet read.
abbrev head_or_0 : List ℕ → ℕ
head_or_0 xs = get_or xs 0 0

-- The loop of `add_abs` with `n` rounds left, over the limbs not yet read, and the last push.
add_rounds : ℕ → List ℕ → List ℕ → ℕ → List ℕ
add_rounds zero lhs rhs carry = if carry == 0 then [] else as_u64 carry ∷ []
add_rounds (suc n) lhs rhs carry =
    let sum = u128 (u128 (head_or_0 lhs + head_or_0 rhs) + carry) in
    as_u64 sum ∷ add_rounds n (drop 1 lhs) (drop 1 rhs) (high sum)

unfoldable pub add_abs : List ℕ → List ℕ → List ℕ
unfolding add_rounds
add_abs lhs rhs = add_rounds (max (length lhs) (length rhs)) lhs rhs 0

-- One round of `sub_abs`: the limb that is pushed, for the limb `a` and `sub = b + borrow`.
abbrev sub_limb : ℕ → ℕ → ℕ
sub_limb a sub = if leb sub a then as_u64 (a - sub) else as_u64 (u128 (base + a) - sub)

-- The loop of `sub_abs`.
sub_loop : List ℕ → List ℕ → ℕ → List ℕ
sub_loop [] rhs borrow = []
sub_loop (a ∷ lhs) rhs borrow =
    let sub = u128 (head_or_0 rhs + borrow) in
    sub_limb a sub ∷ sub_loop lhs (drop 1 rhs) (if leb sub a then 0 else 1)

unfoldable pub sub_abs : List ℕ → List ℕ → List ℕ
unfolding sub_loop
sub_abs lhs rhs = sub_loop lhs rhs 0

-- The loop of `add_small_assign` from the limb `i` on, which is pushed when there is none. The
-- fuel is one more than the limbs left: the carry is gone after the pushed limb.
add_small_loop : ℕ → List ℕ → ℕ → List ℕ
add_small_loop zero limbs carry = limbs
add_small_loop (suc fuel) limbs carry =
    let sum = u128 (head_or_0 limbs + carry) in
    let rest = add_small_loop fuel (drop 1 limbs) (high sum) in
    if carry == 0 then limbs else as_u64 sum ∷ rest

unfoldable pub add_small : List ℕ → ℕ → List ℕ
unfolding add_small_loop
add_small limbs rhs = if rhs == 0 then limbs else add_small_loop (suc (length limbs)) limbs rhs

pub value-head-drop : (xs : List ℕ) → value xs ≡ head_or_0 xs + base * value (drop 1 xs)
value-head-drop [] = refl
value-head-drop (x ∷ xs) = refl

pub head_lt : (xs : List ℕ) → IsLimbs xs → head_or_0 xs < base
head_lt [] h = omega arith
head_lt (x ∷ xs) h = h.0

pub drop-IsLimbs : (xs : List ℕ) → IsLimbs xs → IsLimbs (drop 1 xs)
drop-IsLimbs [] h = tt
drop-IsLimbs (x ∷ xs) h = h.1

pub length-tail : (xs : List ℕ) → length (drop 1 xs) ≡ length xs - 1
length-tail [] = refl
length-tail (x ∷ xs) = omega arith

value_of_empty : (xs : List ℕ) → length xs ≤ 0 → value xs ≡ 0
value_of_empty [] h = refl
value_of_empty (x ∷ xs) h = elim h [ ]

add_rounds_lem :
    (n : ℕ) (lhs rhs : List ℕ) (carry : ℕ)
    → length lhs ≤ n
    → length rhs ≤ n
    → IsLimbs lhs
    → IsLimbs rhs
    → carry ≤ 1
    → (value (add_rounds n lhs rhs carry) ≡ value lhs + value rhs + carry)
      × IsLimbs (add_rounds n lhs rhs carry)
unfolding add_rounds
add_rounds_lem zero lhs rhs carry hl hr il ir hc =
    ground (arith, value_of_empty lhs hl, value_of_empty rhs hr)
add_rounds_lem (suc n) lhs rhs carry hl hr il ir hc =
    let sum = u128 (u128 (head_or_0 lhs + head_or_0 rhs) + carry) in
    let bl = head_lt lhs il in
    let br = head_lt rhs ir in
    let ih =
      add_rounds_lem n (drop 1 lhs) (drop 1 rhs) (high sum) (omega (arith, length-tail lhs))
        (omega (arith, length-tail rhs)) (drop-IsLimbs lhs il) (drop-IsLimbs rhs ir)
        (omega arith) in
    (omega (arith, ih.0, value-head-drop lhs, value-head-drop rhs), (omega arith, ih.1))

-- The sum of two magnitudes; no `u128` sum overflows.
pub value-add_abs :
    (lhs rhs : List ℕ)
    → IsLimbs lhs
    → IsLimbs rhs
    → (value (add_abs lhs rhs) ≡ value lhs + value rhs) × IsLimbs (add_abs lhs rhs)
unfolding add_abs
value-add_abs lhs rhs il ir =
    let r =
      add_rounds_lem (max (length lhs) (length rhs)) lhs rhs 0 (omega arith) (omega arith) il ir
        (omega arith) in
    (omega (arith, r.0), r.1)

sub_loop_lem :
    (lhs rhs : List ℕ) (borrow : ℕ)
    → IsLimbs lhs
    → IsLimbs rhs
    → borrow ≤ 1
    → value rhs + borrow ≤ value lhs
    → (value (sub_loop lhs rhs borrow) + value rhs + borrow ≡ value lhs)
      × IsLimbs (sub_loop lhs rhs borrow)
unfolding sub_loop
sub_loop_lem [] rhs borrow il ir hb hle = (omega arith, tt)
sub_loop_lem (a ∷ lhs) rhs borrow il ir hb hle =
    let sub = u128 (head_or_0 rhs + borrow) in
    let br = head_lt rhs ir in
    let split = value-head-drop rhs in
    elim (Bool-cases (leb sub a)) [
      | inl fits ↦
          let le : sub ≤ a = leb→le sub a fits in
          let ih =
            sub_loop_lem lhs (drop 1 rhs) 0 il.1 (drop-IsLimbs rhs ir) (omega arith)
              (omega arith) in
          rw fits (omega (arith, ih.0), (omega arith, ih.1))
      | inr borrows ↦
          let lt : a < sub = ground arith in
          let ih =
            sub_loop_lem lhs (drop 1 rhs) 1 il.1 (drop-IsLimbs rhs ir) (omega arith)
              (omega arith) in
          rw borrows (omega (arith, ih.0), (omega arith, ih.1))
    ]

-- The difference of two magnitudes, where the second is not the larger one.
pub value-sub_abs :
    (lhs rhs : List ℕ)
    → IsLimbs lhs
    → IsLimbs rhs
    → value rhs ≤ value lhs
    → (value (sub_abs lhs rhs) ≡ value lhs - value rhs) × IsLimbs (sub_abs lhs rhs)
unfolding sub_abs
value-sub_abs lhs rhs il ir h =
    let r = sub_loop_lem lhs rhs 0 il ir (omega arith) (omega arith) in (omega (arith, r.0), r.1)

add_small_loop_lem :
    (limbs : List ℕ) (carry : ℕ)
    → IsLimbs limbs
    → carry < base
    → (value (add_small_loop (suc (length limbs)) limbs carry) ≡ value limbs + carry)
      × IsLimbs (add_small_loop (suc (length limbs)) limbs carry)
unfolding add_small_loop
add_small_loop_lem [] carry il hc = ground arith
add_small_loop_lem (x ∷ xs) carry il hc =
    let sum = u128 (x + carry) in
    let ih = add_small_loop_lem xs (high sum) il.1 (omega arith) in
    elim (Bool-cases (carry == 0)) [
      | inl done ↦ let e : carry ≡ 0 = ground arith in rw done (omega arith, il)
      | inr more ↦ rw more (omega (arith, ih.0), (omega arith, ih.1))
    ]

-- A word is added to a magnitude, and the vector grows by a limb where it has to.
pub value-add_small :
    (limbs : List ℕ) (rhs : ℕ)
    → IsLimbs limbs
    → rhs < base
    → (value (add_small limbs rhs) ≡ value limbs + rhs) × IsLimbs (add_small limbs rhs)
unfolding add_small
value-add_small limbs rhs il h = elim (Bool-cases (rhs == 0)) [
  | inl none_added ↦ let e : rhs ≡ 0 = ground arith in rw none_added (omega arith, il)
  | inr some_added ↦ rw some_added (rw some_added at (add_small_loop_lem limbs rhs il h))
]

add_small_loop-HasTop :
    (limbs : List ℕ) (carry : ℕ)
    → HasTop limbs
    → IsLimbs limbs
    → carry < base
    → HasTop (add_small_loop (suc (length limbs)) limbs carry)
unfolding add_small_loop
add_small_loop-HasTop [] carry t il hc = absurd t
add_small_loop-HasTop (x ∷ []) carry t il hc = let h = il.0 in ground arith
add_small_loop-HasTop (x ∷ y ∷ ys) carry t il hc =
    let sum = u128 (x + carry) in
    let rest = add_small_loop (suc (length (y ∷ ys))) (y ∷ ys) (high sum) in
    let ih = add_small_loop-HasTop (y ∷ ys) (high sum) t il.1 (omega arith) in
    elim (Bool-cases (carry == 0)) [
      | inl done ↦ rw done t
      | inr more ↦ rw more (HasTop-cons (as_u64 sum) rest ih)
    ]

-- The last limb stays a digit that is not zero.
pub add_small-IsTrimmed :
    (limbs : List ℕ) (rhs : ℕ)
    → IsTrimmed limbs
    → IsLimbs limbs
    → rhs < base
    → IsTrimmed (add_small limbs rhs)
unfolding add_small
add_small-IsTrimmed [] rhs t il h = ground arith
add_small-IsTrimmed (x ∷ xs) rhs t il h = elim (Bool-cases (rhs == 0)) [
  | inl none_added ↦ rw none_added t
  | inr some_added ↦ rw some_added (
      rw some_added at (
        HasTop-IsTrimmed (add_small_loop (suc (length (x ∷ xs))) (x ∷ xs) rhs)
          (add_small_loop-HasTop (x ∷ xs) rhs t il h)))
]
