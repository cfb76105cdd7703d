-- ===== src/Anyint/SetBit.antt =====
-- src/int.rs: one bit of a magnitude, `set_bit`, and the test of a bit in `div_rem_abs`.
use vif.Prelude.{
  ℕ, zero, suc, ◌+◌, ◌-◌, ◌*◌, ◌/◌, ◌%◌, ◌^◌, ◌<◌, List, [], ◌∷◌, ◌++◌, Bool, not, ◌≡◌, refl, sym,
  ap, ◌∙◌, arith, if◌then◌else◌, length, set, get_or, replicate, ◌==◌, leb,
}
use Prim.Native.Nat.{bit_or, bit_and}
use native.Mathlib.Nat.{
  div-eq_of_lt, pow-suc, div-div-eq-div-mul, mul_assoc, mul_comm, mul-div_cancel, mod-lt,
}
use vif.Prelude.Bits.{bit_or-mul-pow, bit_or_comm, bit_or-zero, bit_and-one}
use vif.Prelude.Powers.{pow_pos, pow_complement, div_low_word, shl_word, word_room}
use vif.Anyint.Limbs.{
  HasTop, HasTop-cons, HasTop-IsTrimmed, IsTrimmed-tail, base, IsLimbs, IsTrimmed, value, span,
  span_pos,
}
use vif.Anyint.Shift.{shift-span}

-- `if limbs.len() <= limb { limbs.resize(limb + 1, 0) }`
abbrev resized : List ℕ → ℕ → List ℕ
resized limbs limb =
    if leb (length limbs) limb then limbs ++ replicate (limb + 1 - length limbs) 0 else limbs

-- `limbs[limb] |= word`
abbrev or_limb : List ℕ → ℕ → ℕ → List ℕ
or_limb limbs limb word = set limbs limb (bit_or (get_or limbs limb 0) word)

unfoldable pub set_bit : List ℕ → ℕ → List ℕ
set_bit limbs bit = or_limb (resized limbs (bit / 64)) (bit / 64) (2 ^ (bit % 64))

-- `((limbs[bit / 64] >> (bit % 64)) & 1) != 0`
unfoldable pub test_bit : List ℕ → ℕ → Bool
test_bit limbs bit = not (bit_and (get_or limbs (bit / 64) 0 / 2 ^ (bit % 64)) 1 == 0)

-- The same write, by recursion on the index.
or_at : ℕ → List ℕ → ℕ → List ℕ
or_at zero [] w = w ∷ []
or_at zero (x ∷ xs) w = bit_or x w ∷ xs
or_at (suc k) [] w = 0 ∷ or_at k [] w
or_at (suc k) (x ∷ xs) w = x ∷ or_at k xs w

resized-nil : (k : ℕ) → resized [] (suc k) ≡ 0 ∷ resized [] k
resized-nil k = ground (
  arith,
  ap (λ (n : ℕ). replicate {A = ℕ} n 0) {x = suc k + 1 - 0} {y = suc (k + 1 - 0)} (omega arith),
)

resized-cons : (k x : ℕ) (xs : List ℕ) → resized (x ∷ xs) (suc k) ≡ x ∷ resized xs k
resized-cons k x xs = ground (
  arith,
  ap (λ (n : ℕ). replicate {A = ℕ} n 0) {x = suc k + 1 - suc (length xs)} {y = k + 1 - length xs}
      (omega arith),
)

or_limb-or_at : (k : ℕ) (xs : List ℕ) (w : ℕ) → or_limb (resized xs k) k w ≡ or_at k xs w
unfolding or_at
or_limb-or_at zero [] w = ap (λ (n : ℕ). n ∷ []) (bit_or_comm 0 w ∙ bit_or-zero w)
or_limb-or_at zero (x ∷ xs) w = ground arith
or_limb-or_at (suc k) [] w =
    ap (λ (l : List ℕ). or_limb l (suc k) w) (resized-nil k) ∙ ap (◌∷◌ 0) (or_limb-or_at k [] w)
or_limb-or_at (suc k) (x ∷ xs) w =
    ap (λ (l : List ℕ). or_limb l (suc k) w) (resized-cons k x xs)
    ∙ ap (◌∷◌ x) (or_limb-or_at k xs w)

or_at_lem :
    (k : ℕ) (xs : List ℕ) (w : ℕ)
    → IsLimbs xs
    → w < base
    → bit_or (get_or xs k 0) w ≡ get_or xs k 0 + w
    → get_or xs k 0 + w < base
    → (value (or_at k xs w) ≡ value xs + span k * w) × IsLimbs (or_at k xs w)
unfolding or_at
or_at_lem zero [] w il hw e room = (omega arith, (hw, tt))
or_at_lem zero (x ∷ xs) w il hw e room = (omega arith, (omega arith, il.1))
or_at_lem (suc k) [] w il hw e room =
    let ih = or_at_lem k [] w tt hw e room in (omega (arith, ih.0), (omega arith, ih.1))
or_at_lem (suc k) (x ∷ xs) w il hw e room =
    let ih = or_at_lem k xs w il.1 hw e room in (omega (arith, ih.0), (il.0, ih.1))

or_at-HasTop :
    (k : ℕ) (xs : List ℕ) (w : ℕ)
    → IsTrimmed xs
    → 0 < w
    → bit_or (get_or xs k 0) w ≡ get_or xs k 0 + w
    → HasTop (or_at k xs w)
unfolding or_at
or_at-HasTop zero [] w t h e = h
or_at-HasTop zero (x ∷ []) w t h e = omega arith
or_at-HasTop zero (x ∷ y ∷ ys) w t h e = t
or_at-HasTop (suc k) [] w t h e = HasTop-cons 0 (or_at k [] w) (or_at-HasTop k [] w tt h e)
or_at-HasTop (suc k) (x ∷ xs) w t h e =
    HasTop-cons x (or_at k xs w) (or_at-HasTop k xs w (IsTrimmed-tail x xs t) h e)

-- A limb is a digit of the number.
get_or_lem : (k : ℕ) (xs : List ℕ) → IsLimbs xs → get_or xs k 0 ≡ value xs / span k % base
get_or_lem zero [] il = refl
get_or_lem zero (x ∷ xs) il = omega (arith, il.0)
get_or_lem (suc k) [] il = let z = div-eq_of_lt (span_pos (suc k)) in omega arith
get_or_lem (suc k) (x ∷ xs) il =
    let low : (x + base * value xs) / base ≡ value xs = omega (arith, il.0) in
    get_or_lem k xs il.1
    ∙ ap (λ (n : ℕ). n % base)
        (ap (λ (n : ℕ). n / span k) (sym low)
          ∙ div-div-eq-div-mul (x + base * value xs) base (span k))

-- The word with one bit, below the multiples of the next one.
bit_or-bit : (s c : ℕ) → bit_or (c * 2 ^ suc s) (2 ^ s) ≡ c * 2 ^ suc s + 2 ^ s
bit_or-bit s c = bit_or-mul-pow (suc s) c (2 ^ s) (omega (arith, pow-suc 2 s, pow_pos s))

-- Bit `bit` of a multiple of `2 ^ (bit + 1)`, in its limb.
digit_of_multiple :
    (limbs : List ℕ) (bit c : ℕ)
    → IsLimbs limbs
    → value limbs ≡ c * 2 ^ suc bit
    → (d : ℕ) × (get_or limbs (bit / 64) 0 ≡ d * 2 ^ suc (bit % 64))
      × (get_or limbs (bit / 64) 0 + 2 ^ (bit % 64) < base)
digit_of_multiple limbs bit c il e =
    let s = bit % 64 in
    let k = bit / 64 in
    let p = 2 ^ suc s in
    let q = 2 ^ (64 - suc s) in
    let next : 2 ^ suc bit ≡ p * span k = omega (
      arith,
      pow-suc 2 bit,
      shift-span bit,
      ap (λ (n : ℕ). n * span k) (pow-suc 2 s),
      mul_comm (span k) (2 ^ s),
    ) in
    let wide : value limbs ≡ c * p * span k =
      e ∙ ap (λ (n : ℕ). c * n) next ∙ sym (mul_assoc c p (span k)) in
    let cut : value limbs / span k ≡ c * p =
      ap (λ (n : ℕ). n / span k) wide ∙ mul-div_cancel (c * p) (span_pos k) in
    let word =
      shl_word c p q (pow_pos (suc s)) (pow_pos (64 - suc s))
        (pow_complement (suc s) (omega arith)) in
    let digit = get_or_lem k limbs il ∙ ap (λ (n : ℕ). n % base) cut ∙ word in
    let room =
      word_room (c % q) (2 ^ s) p q (mod-lt c (pow_pos (64 - suc s)))
        (omega (arith, pow-suc 2 s, pow_pos s)) (pow_complement (suc s) (omega arith)) in
    (c % q, digit, omega (arith, digit, room))

-- Setting a bit below which, and at which, the number has none adds its power of two.
pub set_bit_lem :
    (limbs : List ℕ) (bit c : ℕ)
    → IsLimbs limbs
    → IsTrimmed limbs
    → value limbs ≡ c * 2 ^ suc bit
    → (value (set_bit limbs bit) ≡ value limbs + 2 ^ bit)
      × IsLimbs (set_bit limbs bit)
      × IsTrimmed (set_bit limbs bit)
unfolding set_bit
set_bit_lem limbs bit c il t e =
    let s = bit % 64 in
    let k = bit / 64 in
    let (d, digit, room) = digit_of_multiple limbs bit c il e in
    let join =
      ap (λ (n : ℕ). bit_or n (2 ^ s)) digit
      ∙ bit_or-bit s d
      ∙ ap (λ (n : ℕ). n + 2 ^ s) (sym digit) in
    let r = or_at_lem k limbs (2 ^ s) il (omega arith) join room in
    let top = or_at-HasTop k limbs (2 ^ s) t (pow_pos s) join in
    rw (or_limb-or_at k limbs (2 ^ s)) (
      r.0 ∙ ap (λ (n : ℕ). value limbs + n) (sym (shift-span bit)),
      r.1,
      HasTop-IsTrimmed (or_at k limbs (2 ^ s)) top,
    )

-- The bit test reads the binary digit of the number.
pub test_bit_lem :
    (limbs : List ℕ) (bit : ℕ)
    → IsLimbs limbs
    → test_bit limbs bit ≡ not (value limbs / 2 ^ bit % 2 == 0)
unfolding test_bit
test_bit_lem limbs bit il =
    let s = bit % 64 in
    let k = bit / 64 in
    let v = value limbs / span k in
    let digit = get_or_lem k limbs il in
    let split : v ≡ v % base + base * (v / base) = omega arith in
    let half = 2 ^ (63 - s) in
    let e : 2 ^ (64 - s) ≡ 2 ^ suc (63 - s) = ap (λ (n : ℕ). 2 ^ n) (omega arith) in
    let even : 2 ^ (64 - s) ≡ 2 * half = e ∙ pow-suc 2 (63 - s) ∙ mul_comm half 2 in
    let low =
      div_low_word (v % base) (v / base) (2 ^ s) (2 ^ (64 - s)) (pow_pos s)
        (pow_complement s (omega arith)) in
    let high_bits = ap (λ (n : ℕ). n * (v / base)) even ∙ mul_assoc 2 half (v / base) in
    let whole = ap (λ (n : ℕ). n / 2 ^ s) split ∙ low in
    let place =
      div-div-eq-div-mul (value limbs) (span k) (2 ^ s)
      ∙ ap (λ (n : ℕ). value limbs / n) (sym (shift-span bit)) in
    let parity : v % base / 2 ^ s % 2 ≡ value limbs / 2 ^ bit % 2 =
      omega (arith, whole, high_bits, place) in
    let word =
      bit_and-one (get_or limbs k 0 / 2 ^ s) ∙ ap (λ (n : ℕ). n / 2 ^ s % 2) digit ∙ parity in
    ap (λ (n : ℕ). not (n == 0)) word
