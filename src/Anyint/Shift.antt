-- ===== src/Anyint/Shift.antt =====
-- src/int.rs: shifts of magnitudes, `abs_shl` and `abs_shr`.
use vif.Prelude.{
  leb→le, ℕ, zero, suc, ◌+◌, ◌-◌, ◌*◌, ◌/◌, ◌%◌, ◌^◌, ◌≤◌, ◌<◌, List, [], ◌∷◌, ◌++◌, ◌≡◌, refl, sym,
  ap, ◌∙◌, arith, length, ◌==◌, leb, Bool-cases, inl, inr, if◌then◌else◌, replicate, drop,
}
use Prim.Native.Nat.{bit_or}
use native.Mathlib.Nat.{
  div-div-eq-div-mul, div-eq_of_lt, div-le_self, mul_comm, mul_left_comm, mod-eq_of_lt, add-zero,
  div-add-mod, mod-lt,
}
use vif.Prelude.Bits.{bit_or-mul-pow, bit_or_comm}
use vif.Prelude.Powers.{
  pow_pos, pow-add, pow_complement, shl_word, word_split, word_room, regroup_word, pow_le_pow,
  div_lt_of_mul, div_low_word, mod_low_word,
}
use vif.Anyint.Limbs.{
  span_pos, base, as_u64, IsLimbs, IsTrimmed, value, trim, value-trim, trim-IsLimbs, trim-IsTrimmed,
  span,
}

-- The loop of `abs_shl` over the limbs; `spill` is what the limb below has put into `out[idx]`.
shl_loop : List ℕ → ℕ → ℕ → List ℕ
shl_loop [] bit_shift spill = spill ∷ []
shl_loop (limb ∷ limbs) bit_shift spill =
    bit_or spill (as_u64 (limb * 2 ^ bit_shift))
    ∷ shl_loop limbs bit_shift (if bit_shift == 0 then 0 else limb / 2 ^ (64 - bit_shift))

abbrev shl_limbs : List ℕ → ℕ → List ℕ
shl_limbs [] shift = []
shl_limbs (limb ∷ limbs) shift =
    trim (replicate (shift / 64) 0 ++ shl_loop (limb ∷ limbs) (shift % 64) 0)

unfoldable pub abs_shl : List ℕ → ℕ → List ℕ
unfolding shl_loop
abs_shl limbs shift = shl_limbs limbs shift

-- `out[dst]` of `abs_shr`, from the limb `i` and the limbs after it.
shr_limb : ℕ → List ℕ → ℕ → ℕ
shr_limb limb [] bit_shift = limb / 2 ^ bit_shift
shr_limb limb (next ∷ _) bit_shift =
    if bit_shift == 0
    then limb / 2 ^ bit_shift
    else bit_or (limb / 2 ^ bit_shift) (as_u64 (next * 2 ^ (64 - bit_shift)))

-- The loop of `abs_shr`, from the limb `limb_shift` on.
shr_loop : List ℕ → ℕ → List ℕ
shr_loop [] bit_shift = []
shr_loop (limb ∷ limbs) bit_shift = shr_limb limb limbs bit_shift ∷ shr_loop limbs bit_shift

unfoldable pub abs_shr : List ℕ → ℕ → List ℕ
unfolding shr_loop shr_limb
abs_shr limbs shift =
    if leb (length limbs) (shift / 64)
    then []
    else trim (shr_loop (drop (shift / 64) limbs) (shift % 64))

-- Below, `p` is `2 ^ bit_shift` and `q` is `2 ^ (64 - bit_shift)`.
module _ (s : ℕ) (hs : s < 64) where
  abbrev complement : 2 ^ s * 2 ^ (64 - s) ≡ base
  complement = pow_complement s (omega arith)

  spill_lem :
      (limb : ℕ) → limb < base → (if s == 0 then 0 else limb / 2 ^ (64 - s)) ≡ limb / 2 ^ (64 - s)
  spill_lem limb h = elim (Bool-cases (s == 0)) [
    | inl z ↦ let e : s ≡ 0 = ground arith in rw (z, e) (omega arith)
    | inr nz ↦ rw nz
  ]

  -- One limb of a left shift.
  shl_limb :
      (limb spill : ℕ)
      → limb < base
      → spill < 2 ^ s
      → (bit_or spill (as_u64 (limb * 2 ^ s)) + base * (limb / 2 ^ (64 - s)) ≡ limb * 2 ^ s + spill)
        × (bit_or spill (as_u64 (limb * 2 ^ s)) < base)
        × (limb / 2 ^ (64 - s) < 2 ^ s)
  shl_limb limb spill hl hp =
      let q = 2 ^ (64 - s) in
      let low = shl_word limb (2 ^ s) q (pow_pos s) (pow_pos (64 - s)) complement in
      let join = bit_or_comm spill (limb % q * 2 ^ s) ∙ bit_or-mul-pow s (limb % q) spill hp in
      let word = ap (bit_or spill) low ∙ join in
      let room =
        word_room (limb % q) spill (2 ^ s) q (mod-lt limb (pow_pos (64 - s))) hp complement in
      (
        omega (arith, word, word_split limb (2 ^ s) q complement),
        omega (arith, word, room),
        div_lt_of_mul limb (2 ^ s) q (pow_pos (64 - s)) complement hl,
      )

  shl_loop_lem :
      (limbs : List ℕ) (spill : ℕ)
      → IsLimbs limbs
      → spill < 2 ^ s
      → (value (shl_loop limbs s spill) ≡ value limbs * 2 ^ s + spill)
        × IsLimbs (shl_loop limbs s spill)
  unfolding shl_loop
  shl_loop_lem [] spill il hp =
      let below = pow_le_pow s 64 (omega arith) in (omega arith, (omega (arith, below), tt))
  shl_loop_lem (x ∷ xs) spill il hp =
      let one = shl_limb x spill il.0 hp in
      let ih = shl_loop_lem xs (x / 2 ^ (64 - s)) il.1 one.2 in
      rw (spill_lem x il.0) (omega (arith, one.0, ih.0), (one.1, ih.1))

  -- One limb of a right shift: it takes its high bits from the number above it.
  shr_limb_lem :
      (limb : ℕ) (limbs : List ℕ)
      → limb < base
      → IsLimbs limbs
      → (shr_limb limb limbs s ≡ limb / 2 ^ s + value limbs % 2 ^ s * 2 ^ (64 - s))
        × (shr_limb limb limbs s < base)
  unfolding shr_limb
  shr_limb_lem limb [] hl il = (
    omega (arith, ap (λ (n : ℕ). n * 2 ^ (64 - s)) (mod-eq_of_lt {n = 0} {m = 2 ^ s} (pow_pos s))),
    omega (arith, div-le_self limb (2 ^ s)),
  )
  shr_limb_lem limb (y ∷ ys) hl il =
      let p = 2 ^ s in
      let q = 2 ^ (64 - s) in
      let flipped : q * p ≡ base = mul_comm q p ∙ complement in
      let top = mod_low_word y (value ys) p q (pow_pos s) complement in
      let low = shl_word y q p (pow_pos (64 - s)) (pow_pos s) flipped in
      let below = div_lt_of_mul limb q p (pow_pos s) flipped hl in
      let join =
        bit_or_comm (limb / p) (y % p * q) ∙ bit_or-mul-pow (64 - s) (y % p) (limb / p) below in
      let word = ap (bit_or (limb / p)) low ∙ join in
      let room = word_room (y % p) (limb / p) q p (mod-lt y (pow_pos s)) below flipped in
      let same = ap (λ (n : ℕ). n * q) top in
      elim (Bool-cases (s == 0)) [
        | inl z ↦
            let e : s ≡ 0 = ground arith in
            let p1 : p ≡ 1 = ap (λ (n : ℕ). 2 ^ n) e in
            let none_low : y % p ≡ 0 = ap (λ (n : ℕ). y % n) p1 ∙ omega arith in
            let nothing = ap (λ (n : ℕ). n * q) none_low in
            rw z (omega (arith, same, nothing), omega (arith, div-le_self limb p))
        | inr nz ↦ rw nz (omega (arith, word, same), omega (arith, word, room))
      ]

  shr_loop_lem :
      (limbs : List ℕ)
      → IsLimbs limbs
      → (value (shr_loop limbs s) ≡ value limbs / 2 ^ s) × IsLimbs (shr_loop limbs s)
  unfolding shr_loop
  shr_loop_lem [] il = (sym (div-eq_of_lt (pow_pos s)), tt)
  shr_loop_lem (x ∷ xs) il =
      let p = 2 ^ s in
      let q = 2 ^ (64 - s) in
      let one = shr_limb_lem x xs il.0 il.1 in
      let ih = shr_loop_lem xs il.1 in
      let split = div_low_word x (value xs) p q (pow_pos s) complement in
      let whole = regroup_word q p (value xs / p) (value xs % p) (mul_comm q p ∙ complement) in
      let total = ap (λ (n : ℕ). n * q) (div-add-mod (value xs) p) in
      (omega (arith, one.0, ih.0, split, whole, total, mul_comm q (value xs)), (one.1, ih.1))

drop_past : (k : ℕ) (xs : List ℕ) → length xs ≤ k → drop k xs ≡ []
drop_past zero [] h = refl
drop_past zero (x ∷ xs) h = elim h [ ]
drop_past (suc k) [] h = refl
drop_past (suc k) (x ∷ xs) h = drop_past k xs (omega arith)

-- `2 ^ (64 * k)` in limbs.
pub span-pow : (k : ℕ) → span k ≡ 2 ^ (64 * k)
span-pow zero = refl
span-pow (suc k) = omega (
  arith,
  span-pow k,
  pow-add 64 (64 * k),
  ap (λ (n : ℕ). 2 ^ n) {x = 64 * suc k} {y = 64 + 64 * k} (omega arith),
)

-- A shift amount is a count of limbs and a count of bits.
pub shift-span : (shift : ℕ) → 2 ^ shift ≡ span (shift / 64) * 2 ^ (shift % 64)
shift-span shift =
    let e : 2 ^ shift ≡ 2 ^ (64 * (shift / 64) + shift % 64) =
      ap (λ (n : ℕ). 2 ^ n) (omega arith) in
    e
    ∙ pow-add (64 * (shift / 64)) (shift % 64)
    ∙ ap (λ (n : ℕ). n * 2 ^ (shift % 64)) (sym (span-pow (shift / 64)))

value-zeros-append :
    (k : ℕ) (xs : List ℕ)
    → IsLimbs xs
    → (value (replicate k 0 ++ xs) ≡ span k * value xs) × IsLimbs (replicate k 0 ++ xs)
value-zeros-append zero xs h = (omega arith, h)
value-zeros-append (suc k) xs h =
    let ih = value-zeros-append k xs h in (omega (arith, ih.0), (omega arith, ih.1))

-- A left shift multiplies by a power of two, and its limbs are trimmed.
pub abs_shl_lem :
    (limbs : List ℕ) (shift : ℕ)
    → IsLimbs limbs
    → (value (abs_shl limbs shift) ≡ value limbs * 2 ^ shift)
      × IsLimbs (abs_shl limbs shift)
      × IsTrimmed (abs_shl limbs shift)
unfolding abs_shl
abs_shl_lem [] shift il = (omega arith, tt, tt)
abs_shl_lem (x ∷ xs) shift il =
    let s = shift % 64 in
    let k = shift / 64 in
    let loop = shl_loop_lem s (omega arith) (x ∷ xs) 0 il (pow_pos s) in
    let out = replicate k 0 ++ shl_loop (x ∷ xs) s 0 in
    let padded = value-zeros-append k (shl_loop (x ∷ xs) s 0) loop.1 in
    let moved = ap (λ (n : ℕ). value (x ∷ xs) * n) (shift-span shift) in
    let v = value (x ∷ xs) in
    let scaled : span k * (v * 2 ^ s) ≡ v * (span k * 2 ^ s) = mul_left_comm (span k) v (2 ^ s) in
    let grown = ap (λ (n : ℕ). span k * n) (loop.0 ∙ add-zero (v * 2 ^ s)) in
    (
      value-trim out ∙ padded.0 ∙ grown ∙ scaled ∙ sym moved,
      trim-IsLimbs out padded.1,
      trim-IsTrimmed out,
    )

value-drop :
    (k : ℕ) (xs : List ℕ)
    → IsLimbs xs
    → (value (drop k xs) ≡ value xs / span k) × IsLimbs (drop k xs)
value-drop zero xs h = (omega arith, h)
value-drop (suc k) [] h = (sym (div-eq_of_lt (span_pos (suc k))), tt)
value-drop (suc k) (x ∷ xs) h =
    let ih = value-drop k xs h.1 in
    let low : (x + base * value xs) / base ≡ value xs = omega (arith, h.0) in
    (
      ih.0
          ∙ ap (λ (n : ℕ). n / span k) (sym low)
          ∙ div-div-eq-div-mul (x + base * value xs) base (span k),
      ih.1,
    )

-- A right shift divides by a power of two, rounding down, and its limbs are trimmed.
pub abs_shr_lem :
    (limbs : List ℕ) (shift : ℕ)
    → IsLimbs limbs
    → (value (abs_shr limbs shift) ≡ value limbs / 2 ^ shift)
      × IsLimbs (abs_shr limbs shift)
      × IsTrimmed (abs_shr limbs shift)
unfolding abs_shr
abs_shr_lem limbs shift il =
    let s = shift % 64 in
    let k = shift / 64 in
    let rest = value-drop k limbs il in
    let loop = shr_loop_lem s (omega arith) (drop k limbs) rest.1 in
    let out = shr_loop (drop k limbs) s in
    let cut =
      ap (λ (n : ℕ). n / 2 ^ s) rest.0
      ∙ div-div-eq-div-mul (value limbs) (span k) (2 ^ s)
      ∙ ap (λ (n : ℕ). value limbs / n) (sym (shift-span shift)) in
    elim (Bool-cases (leb (length limbs) k)) [
      | inl gone ↦
          let nothing : drop k limbs ≡ [] = drop_past k limbs (leb→le (length limbs) k gone) in
          let zero_value =
            ap (λ (l : List ℕ). value l / 2 ^ s) nothing ∙ div-eq_of_lt (pow_pos s) in
          rw gone (sym zero_value ∙ cut, tt, tt)
      | inr left ↦
          rw left (value-trim out ∙ loop.0 ∙ cut, trim-IsLimbs out loop.1, trim-IsTrimmed out)
    ]
