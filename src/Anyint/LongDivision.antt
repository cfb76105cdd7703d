-- ===== src/Anyint/LongDivision.antt =====
-- src/int.rs: `div_rem_abs` is Euclidean division.
use vif.Prelude.{
  ℕ, zero, suc, ◌+◌, ◌-◌, ◌*◌, ◌/◌, ◌%◌, ◌^◌, ◌≤◌, ◌<◌, List, [], ◌∷◌, Bool, true, false, not, ◌≡◌,
  refl, sym, ap, ap₂, ◌∙◌, arith, if◌then◌else◌, compare, Ordering, ◌==◌,
}
use Prim.Native.Nat.{lt, eq, gt}
use mathlib.Core.Path.{subst}
use native.Mathlib.Nat.{
  mul-add-div, mul-add-mod_self_left, mod-eq_of_lt, div-eq_of_lt, pow-suc, div-div-eq-div-mul,
}
use vif.Prelude.Int.{pos, ◌-ℤ◌, int_laws}
use vif.Anyint.Limbs.{IsLimbs, value}
use vif.Anyint.Compare.{abs_cmp, abs_cmp_lem}
use vif.Anyint.Small.{div_rem_small_lem, div_rem_small}
use vif.Anyint.Sum.{add_small-IsTrimmed, value-add_small}
use vif.Anyint.Shift.{abs_shl, abs_shl_lem}
use vif.Anyint.SetBit.{set_bit_lem, test_bit, test_bit_lem}
use vif.Anyint.Width.{significant_bits_lem, significant_bits}
use vif.Anyint.Sign.{normalize_lem, with_sign-IsValid, Anyint, zero_int, with_sign, sub, signed}
use vif.Anyint.Arith.{zero_int-IsValid, sub_lem}
use vif.Anyint.Division.{
  DivRem, bring_down, take_away, div_round, div_loop, long_division, divide_by, div_rem_larger,
  div_rem_abs,
}
use vif.Anyint.Natural.{Natural, Natural-of_to_ℤ, Natural-of_limbs, to_ℤ-Natural}

doubled_lem :
    (r : Anyint) (n : ℕ) → Natural r n → Natural (with_sign r.negative (abs_shl r.limbs 1)) (2 * n)
doubled_lem r n h =
    let s = abs_shl_lem r.limbs 1 h.valid.words in
    let w = with_sign-IsValid r.negative (abs_shl r.limbs 1) s.1 s.2 in
    let sign = ap (λ b. signed b (value (abs_shl r.limbs 1))) h.nonneg in
    let total : value (abs_shl r.limbs 1) ≡ 2 * n = omega (arith, s.0, h.number) in
    Natural-of_to_ℤ _ (2 * n) w.0 (w.1 ∙ sign ∙ ap pos total)

bring_down_lem :
    (r : Anyint) (bit : Bool) (n : ℕ)
    → Natural r n
    → Natural (bring_down r bit) (2 * n + (if bit then 1 else 0))
unfolding bring_down
bring_down_lem r false n h =
    let two = doubled_lem r n h in
    Natural-of_limbs _ _ two.nonneg two.valid.words two.valid.trimmed (omega (arith, two.number))
bring_down_lem r true n h =
    let two = doubled_lem r n h in
    let limbs = (with_sign r.negative (abs_shl r.limbs 1)).limbs in
    let one = value-add_small limbs 1 two.valid.words (omega arith) in
    Natural-of_limbs _ _ two.nonneg one.1
      (add_small-IsTrimmed limbs 1 two.valid.trimmed two.valid.words (omega arith))
      (omega (arith, one.0, two.number))

-- After the bits from `bit` on: `lhs / 2 ^ bit = rhs * k + rem`, and `k` stands in the quotient.
record Divided (l d bit : ℕ) (st : DivRem) : Type 0 where
  k : ℕ
  rem : ℕ
  quotient_is : Natural st.quotient (k * 2 ^ bit)
  remainder_is : Natural st.remainder rem
  splits : l / 2 ^ bit ≡ d * k + rem
  below : rem < d

halve_pow : (l bit : ℕ) → l / 2 ^ bit ≡ 2 * (l / 2 ^ suc bit) + l / 2 ^ bit % 2
halve_pow l bit =
    let e = div-div-eq-div-mul l (2 ^ bit) 2 ∙ ap (λ (n : ℕ). l / n) (sym (pow-suc 2 bit)) in
    omega (arith, e)

digit_of_test : (n : ℕ) → (if not (n % 2 == 0) then 1 else 0) ≡ n % 2
digit_of_test n = ground arith

pub sub-Natural :
    (x y : Anyint) (m n : ℕ) → Natural x m → Natural y n → n ≤ m → Natural (sub x y) (m - n)
sub-Natural x y m n hx hy le =
    let s = sub_lem x y hx.valid hy.valid in
    let e = ap₂ ◌-ℤ◌ (to_ℤ-Natural x m hx) (to_ℤ-Natural y n hy) in
    let d : pos m -ℤ pos n ≡ pos (m - n) = omega int_laws in
    Natural-of_to_ℤ (sub x y) (m - n) s.0 (s.1 ∙ e ∙ d)

module _ (rhs : Anyint) (l d bit k rem b : ℕ) (q r : Anyint) where
  take_away_lem :
      Natural rhs d
      → Natural q (k * 2 ^ suc bit)
      → Natural r (2 * rem + b)
      → l / 2 ^ bit ≡ 2 * (d * k + rem) + b
      → rem < d
      → b ≤ 1
      → (o : Ordering) → compare (2 * rem + b) d ≡ o
      → Divided l d bit (take_away o bit q r rhs)
  take_away_lem hd hq hr e lt_d hb o c = go o c
    where
      taken : d ≤ 2 * rem + b → Divided l d bit (take_away eq bit q r rhs)
      taken le =
          let s = set_bit_lem q.limbs bit k hq.valid.words hq.valid.trimmed hq.number in
          record {
            k = 2 * k + 1;
            rem = 2 * rem + b - d;
            quotient_is =
                Natural-of_limbs _ _ hq.nonneg s.1 s.2
                  (omega (arith, s.0, hq.number, ap (λ (n : ℕ). k * n) (pow-suc 2 bit)));
            remainder_is = sub-Natural r rhs (2 * rem + b) d hr hd le;
            splits = omega arith;
            below = omega arith;
          }

      go : (o : Ordering) → compare (2 * rem + b) d ≡ o → Divided l d bit (take_away o bit q r rhs)
      go eq c = taken (ground arith)
      go gt c = taken (ground arith)
      go lt c = record {
        k = 2 * k;
        rem = 2 * rem + b;
        quotient_is =
            Natural-of_limbs _ _ hq.nonneg hq.valid.words hq.valid.trimmed
              (omega (arith, hq.number, ap (λ (n : ℕ). k * n) (pow-suc 2 bit)));
        remainder_is = hr;
        splits = omega arith;
        below = ground arith;
      }

module _ (lhs rhs : Anyint) (l d : ℕ) (hl : Natural lhs l) (hd : Natural rhs d) where
  div_round_lem :
      (bit : ℕ) (st : DivRem)
      → Divided l d (suc bit) st
      → Divided l d bit (div_round lhs rhs bit st)
  unfolding div_round
  div_round_lem bit st h =
      let b = l / 2 ^ bit % 2 in
      let t = test_bit lhs.limbs bit in
      let r = bring_down st.remainder t in
      let test =
        test_bit_lem lhs.limbs bit hl.valid.words
        ∙ ap (λ (n : ℕ). not (n / 2 ^ bit % 2 == 0)) hl.number in
      let digit : (if t then 1 else 0) ≡ b =
        ap (λ (t' : Bool). if t' then 1 else 0) test ∙ digit_of_test (l / 2 ^ bit) in
      let down = bring_down_lem st.remainder t h.rem h.remainder_is in
      let hr =
        Natural-of_limbs r (2 * h.rem + b) down.nonneg down.valid.words down.valid.trimmed
          (omega (arith, down.number, digit)) in
      let c =
        abs_cmp_lem r.limbs rhs.limbs hr.valid.words hd.valid.words hr.valid.trimmed
          hd.valid.trimmed
        ∙ ap₂ compare hr.number hd.number in
      take_away_lem rhs l d bit h.k h.rem b st.quotient r hd h.quotient_is hr
        (omega (arith, halve_pow l bit, h.splits)) h.below (omega arith) (abs_cmp r.limbs rhs.limbs)
        (sym c)

  div_loop_lem :
      (bits : ℕ) (st : DivRem) → Divided l d bits st → Divided l d 0 (div_loop lhs rhs bits st)
  unfolding div_loop
  div_loop_lem zero st h = h
  div_loop_lem (suc bit) st h = div_loop_lem bit (div_round lhs rhs bit st) (div_round_lem bit st h)

zero_int-Natural : Natural zero_int 0
zero_int-Natural = record { valid = zero_int-IsValid; nonneg = refl; number = refl }

euclid : (l d k rem : ℕ) → l ≡ d * k + rem → rem < d → (k ≡ l / d) × (rem ≡ l % d)
euclid l d k rem e h =
    let pos_d : 0 < d = omega arith in
    let q = mul-add-div pos_d k rem in
    let r = mul-add-mod_self_left d k rem in
    let small = div-eq_of_lt h in
    let same = mod-eq_of_lt h in
    (omega (arith, ap (λ (n : ℕ). n / d) e, q, small), sym (ap (λ (n : ℕ). n % d) e ∙ r ∙ same))

-- Quotient and remainder, in normal form.
pub record IsDivRem (l d : ℕ) (st : DivRem) : Type 0 where
  pub quotient_is : Natural st.quotient (l / d)
  pub remainder_is : Natural st.remainder (l % d)

IsDivRem-of :
    (l d k rem : ℕ) (st : DivRem)
    → l ≡ d * k + rem
    → rem < d
    → Natural st.quotient k
    → Natural st.remainder rem
    → IsDivRem l d st
IsDivRem-of l d k rem st e h hq hr =
    let (ek, er) = euclid l d k rem e h in
    record {
      quotient_is = subst (Natural st.quotient) ek hq;
      remainder_is = subst (Natural st.remainder) er hr;
    }

module _ (lhs rhs : Anyint) (l d : ℕ) (hl : Natural lhs l) (hd : Natural rhs d)
    (pos_d : 0 < d) where
  long_division_lem : IsDivRem l d (long_division lhs rhs)
  long_division_lem =
      let bits = significant_bits lhs.limbs in
      let fits =
        (significant_bits_lem lhs.limbs bits hl.valid.words hl.valid.trimmed).0 (omega arith) in
      let nothing = div-eq_of_lt fits in
      let r =
        div_loop_lem lhs rhs l d hl hd bits (record { quotient = zero_int; remainder = zero_int })
          (record {
            k = 0;
            rem = 0;
            quotient_is = Natural-of_limbs zero_int _ refl tt tt (omega arith);
            remainder_is = zero_int-Natural;
            splits = ap (λ (n : ℕ). n / 2 ^ bits) (sym hl.number) ∙ nothing ∙ omega arith;
            below = pos_d;
          }) in
      IsDivRem-of l d r.k r.rem (long_division lhs rhs) (omega (arith, r.splits)) r.below
        (subst (Natural (long_division lhs rhs).quotient) (omega arith) r.quotient_is)
        r.remainder_is

  divide_by_lem : (ds : List ℕ) → ds ≡ rhs.limbs → IsDivRem l d (divide_by ds lhs rhs)
  divide_by_lem [] e = long_division_lem
  divide_by_lem (w ∷ v ∷ vs) e = long_division_lem
  divide_by_lem (w ∷ []) e =
      let word : w ≡ d = omega (arith, ap value e, hd.number) in
      let words = subst IsLimbs (sym e) hd.valid.words in
      let r = div_rem_small_lem lhs.limbs w hl.valid.words (omega arith) words.0 in
      let n =
        normalize_lem (record { negative = false; limbs = (div_rem_small lhs.limbs w).1 ∷ [] })
          (omega (arith, r.1, words.0), tt) in
      IsDivRem-of l d (value (div_rem_small lhs.limbs w).0) (div_rem_small lhs.limbs w).1 _
        (omega
          (arith, r.0, hl.number, ap (λ (n : ℕ). n * value (div_rem_small lhs.limbs w).0) word))
        (omega (arith, r.1)) (Natural-of_limbs _ _ refl r.2 r.3 refl)
        (Natural-of_to_ℤ _ _ n.0 (n.1 ∙ ap pos (omega arith)))

  -- `div_rem_abs` is Euclidean division, by a word and by a longer number.
  pub div_rem_abs_lem : IsDivRem l d (div_rem_abs lhs rhs)
  unfolding div_rem_abs
  div_rem_abs_lem = go (abs_cmp lhs.limbs rhs.limbs) refl
    where
      c : abs_cmp lhs.limbs rhs.limbs ≡ compare l d
      c =
          abs_cmp_lem lhs.limbs rhs.limbs hl.valid.words hd.valid.words hl.valid.trimmed
            hd.valid.trimmed
          ∙ ap₂ compare hl.number hd.number

      go :
          (o : Ordering) → abs_cmp lhs.limbs rhs.limbs ≡ o → IsDivRem l d (div_rem_larger o lhs rhs)
      go lt e =
          let less : l < d = ground (arith, c) in
          IsDivRem-of l d 0 l _ (omega arith) less zero_int-Natural hl
      go eq e = divide_by_lem rhs.limbs refl
      go gt e = divide_by_lem rhs.limbs refl
