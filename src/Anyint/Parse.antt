-- ===== src/Anyint/Parse.antt =====
-- src/int.rs: `parse_radix`, the integer of a text of digits.
use mathlib.Core.Path.{subst}
use vif.Anyint.Numeral.{
  Digit, next_number, meaning, ◌>>=◌, read_digit, read_digit-decimal, read_digit-lower,
  read_digit-upper, read_digit-underscore, read_digit-bad, IsGap,
}
use vif.Prelude.{
  sym, ℕ, ◌+◌, ◌-◌, ◌*◌, ◌≤◌, ◌<◌, List, [], ◌∷◌, Bool, false, ◌&&◌, ◌≡◌, refl, ap, ◌∙◌, arith, leb,
  ◌==◌, if◌then◌else◌, Option, none, some, Bool-cases, inl, inr,
}
use vif.Anyint.Limbs.{base, IsLimbs, IsTrimmed, value}
use vif.Anyint.Small.{mul_small, value-mul_small, mul_small-IsTrimmed}
use vif.Anyint.Sum.{add_small, value-add_small, add_small-IsTrimmed}
use vif.Anyint.Sign.{Anyint}
use vif.Anyint.Natural.{Natural, Natural-of_limbs}

abbrev between : ℕ → ℕ → ℕ → Bool
between low b up = leb low b && leb b up

-- The `match` on the byte.
abbrev pub digit_of : ℕ → Digit
digit_of b =
    if between 48 b 57
    then Digit.digit (b - 48)
    else if between 97 b 122
    then Digit.digit (b - 97 + 10)
    else if between 65 b 90
    then Digit.digit (b - 65 + 10)
    else if b == 95
    then Digit.skip
    else Digit.bad

-- One turn of the loop, on the limbs of the result.
abbrev pub parse_step : ℕ → Digit → List ℕ → Option (List ℕ)
parse_step radix (Digit.digit d) limbs =
    if leb radix d then none else some (add_small (mul_small limbs radix) d)
parse_step radix Digit.skip limbs = some limbs
parse_step radix Digit.bad limbs = none

parse_loop : ℕ → List ℕ → List ℕ → Option (List ℕ)
parse_loop radix [] limbs = some limbs
parse_loop radix (b ∷ bs) limbs = do
  limbs' ← parse_step radix (digit_of b) limbs
  parse_loop radix bs limbs'

abbrev positive? : Option (List ℕ) → Option Anyint
positive? none = none
positive? (some limbs) = some (record { negative = false; limbs = limbs })

-- The assertion on the radix holds in every call.
unfoldable pub parse_radix : ℕ → List ℕ → Option Anyint
unfolding parse_loop
parse_radix radix bytes = positive? (parse_loop radix bytes [])

not_alphanumeric_lem :
    (b : ℕ) → IsGap b → (if b == 95 then Digit.skip else Digit.bad) ≡ read_digit b
not_alphanumeric_lem b gap = elim (Bool-cases (b == 95)) [
  | inl e ↦ let is : b ≡ 95 = ground arith in rw e (sym (ap read_digit is ∙ read_digit-underscore))
  | inr e ↦ rw e (sym (read_digit-bad b gap (ground arith)))
]

-- The `match` reads a byte as the place of the digit.
pub digit_of_lem : (b : ℕ) → digit_of b ≡ read_digit b
digit_of_lem b = elim (Bool-cases (between 48 b 57)) [
  | inl e ↦ rw e (sym (read_digit-decimal b (ground arith) (ground arith)))
  | inr e ↦ rw e (elim (Bool-cases (between 97 b 122)) [
    | inl l ↦ rw l (sym (read_digit-lower b (ground arith) (ground arith)))
    | inr l ↦ rw l (elim (Bool-cases (between 65 b 90)) [
      | inl u ↦ rw u (sym (read_digit-upper b (ground arith) (ground arith)))
      | inr u ↦ rw u (not_alphanumeric_lem b (ground arith))
    ])
  ])
]

-- Limbs that stand for `n`, in normal form.
record Stands (limbs : List ℕ) (n : ℕ) : Type 0 where
  words : IsLimbs limbs
  trimmed : IsTrimmed limbs
  number : value limbs ≡ n

push_digit_lem :
    (limbs : List ℕ) (n radix d : ℕ)
    → Stands limbs n
    → 0 < radix
    → radix < base
    → d < radix
    → Stands (add_small (mul_small limbs radix) d) (n * radix + d)
push_digit_lem limbs n radix d h hp hr hd =
    let m = value-mul_small limbs radix h.words hr in
    let t = mul_small-IsTrimmed limbs radix h.trimmed h.words hp hr in
    let d' : d < base = omega arith in
    let a = value-add_small (mul_small limbs radix) d m.1 d' in
    record {
      words = a.1;
      trimmed = add_small-IsTrimmed (mul_small limbs radix) d t m.1 d';
      number = a.0 ∙ omega (arith, m.0, ap (λ (v : ℕ). v * radix) h.number);
    }

-- The limbs of the loop and the number of the text are there together.
abbrev Same : Option ℕ → Option (List ℕ) → Type 0
Same none none = Unit {0}
Same (some n) (some limbs) = Stands limbs n
Same _ _ = ⊥

parse_step_lem :
    (radix n : ℕ) (d : Digit) (limbs : List ℕ)
    → Stands limbs n
    → 0 < radix
    → radix < base
    → Same (next_number radix d n) (parse_step radix d limbs)
parse_step_lem radix n Digit.skip limbs h hp hr = h
parse_step_lem radix n Digit.bad limbs h hp hr = tt
parse_step_lem radix n (Digit.digit d) limbs h hp hr = elim (Bool-cases (leb radix d)) [
  | inl e ↦ rw e tt
  | inr e ↦
      let less : d < radix = ground arith in rw e (push_digit_lem limbs n radix d h hp hr less)
]

abbrev LoopSame : ℕ → List ℕ → Type 0
LoopSame radix bs =
    (n : ℕ) (limbs : List ℕ)
    → Stands limbs n
    → Same (meaning radix bs n) (parse_loop radix bs limbs)

bind-Same :
    (radix : ℕ) (bs : List ℕ) (n? : Option ℕ) (limbs? : Option (List ℕ))
    → LoopSame radix bs
    → Same n? limbs?
    → Same (n? >>= meaning radix bs) (limbs? >>= parse_loop radix bs)
bind-Same radix bs none none ih h = tt
bind-Same radix bs none (some l) ih h = absurd h
bind-Same radix bs (some n) none ih h = absurd h
bind-Same radix bs (some n) (some l) ih h = ih n l h

parse_loop_lem : (radix : ℕ) (bs : List ℕ) → 0 < radix → radix < base → LoopSame radix bs
unfolding parse_loop
parse_loop_lem radix [] hp hr n limbs h = h
parse_loop_lem radix (b ∷ bs) hp hr n limbs h =
    bind-Same radix bs _ _ (parse_loop_lem radix bs hp hr) (
      subst (λ d. Same (next_number radix d n) (parse_step radix (digit_of b) limbs))
        (digit_of_lem b) (parse_step_lem radix n (digit_of b) limbs h hp hr))

-- What parsing returns for the meaning of the text.
abbrev pub Parses : Option ℕ → Option Anyint → Type 0
Parses none x? = x? ≡ none
Parses (some n) x? = (x : Anyint) × (x? ≡ some x) × Natural x n

parsed_lem :
    (n? : Option ℕ) (limbs? : Option (List ℕ)) → Same n? limbs? → Parses n? (positive? limbs?)
parsed_lem none none h = refl
parsed_lem none (some l) h = absurd h
parsed_lem (some n) none h = absurd h
parsed_lem (some n) (some l) h = (
  record { negative = false; limbs = l },
  refl,
  Natural-of_limbs (record { negative = false; limbs = l }) n refl h.words h.trimmed h.number,
)

-- For a radix from 2 to 36, `parse_radix` returns the number that the digits mean, in normal form,
-- and nothing when they mean none.
pub parse_radix_lem :
    (radix : ℕ) (bytes : List ℕ)
    → 2 ≤ radix
    → radix ≤ 36
    → Parses (meaning radix bytes 0) (parse_radix radix bytes)
unfolding parse_radix
parse_radix_lem radix bytes low up = parsed_lem _ _ (
    parse_loop_lem radix bytes (omega arith) (omega arith) 0 []
      (record { words = tt; trimmed = tt; number = refl }))
