-- ===== src/Anyint/Numeral.antt =====
-- What a text of digits means as a number: the reading that src/int.rs `parse_radix` is held against.
use mathlib.Core.Path.{subst}
use vif.Prelude.{
  ◌∙◌, ap, inr, false, ◌≢◌, ◌-◌, refl, ◌⊎◌, ℕ, zero, suc, ◌+◌, ◌*◌, ◌≤◌, ◌<◌, List, [], ◌∷◌, ◌++◌,
  leb, ◌==◌, if◌then◌else◌, Option, none, some, ◌≡◌, arith,
}

-- What a byte of the text is.
pub data Digit : Type 0 where
  digit : ℕ → Digit
  skip bad : Digit

-- The bytes from `first` on, `count` of them.
abbrev pub bytes_from : ℕ → ℕ → List ℕ
bytes_from first zero = []
bytes_from first (suc count) = first ∷ bytes_from (suc first) count

-- The place of a byte in a list of all digits in order, after `n` digits before it.
abbrev pub place : List ℕ → ℕ → ℕ → Digit
place [] b n = Digit.bad
place (c ∷ cs) b n = if c == b then Digit.digit n else place cs b (suc n)

-- `0` to `9` and `a` to `z`.
abbrev pub all_digit_bytes : List ℕ
all_digit_bytes = bytes_from b'0' 10 ++ bytes_from b'a' 26

-- The lower case of a letter.
abbrev pub lower_case : ℕ → ℕ
lower_case b = if leb b'A' b then (if leb b b'Z' then b + 32 else b) else b

-- A byte as a digit: its place among the digits, in either case; `_` is passed over.
pub read_digit : ℕ → Digit
read_digit b = if b == b'_' then Digit.skip else place all_digit_bytes (lower_case b) 0

-- Reading one more digit, after the number `n` of the digits before it: nothing where the digit is
-- not below the radix.
abbrev pub next_number : ℕ → Digit → ℕ → Option ℕ
next_number radix (Digit.digit d) n = if leb radix d then none else some (n * radix + d)
next_number radix Digit.skip n = some n
next_number radix Digit.bad n = none

infixl 1 ◌>>=◌
abbrev pub ◌>>=◌ {ℓ κ} : {A : Type ℓ} {B : Type κ} → Option A → (A → Option B) → Option B
none >>= f = none
some a >>= f = f a

-- The number that a text of digits means, after the number `n` of the digits before it: nothing
-- where a byte is no digit of the radix.
abbrev pub meaning : ℕ → List ℕ → ℕ → Option ℕ
meaning radix [] n = some n
meaning radix (b ∷ bs) n = do n' ← next_number radix (read_digit b) n; meaning radix bs n'

place-inside :
    (count first k n : ℕ) (rest : List ℕ)
    → k < count
    → place (bytes_from first count ++ rest) (first + k) n ≡ Digit.digit (n + k)
place-inside zero first k n rest h = absurd (omega arith)
place-inside (suc count) first zero n rest h = ground arith
place-inside (suc count) first (suc k) n rest h =
    ground (arith, place-inside count (suc first) k (suc n) rest (omega arith))

place-outside :
    (count first b n : ℕ) (rest : List ℕ)
    → ((b < first) ⊎ (first + count ≤ b))
    → place (bytes_from first count ++ rest) b n ≡ place rest b (n + count)
place-outside zero first b n rest h = ground arith
place-outside (suc count) first b n rest h =
    ground (arith, place-outside count (suc first) b (suc n) rest (omega arith))

pub read_digit-decimal : (b : ℕ) → 48 ≤ b → b ≤ 57 → read_digit b ≡ Digit.digit (b - 48)
unfolding read_digit
read_digit-decimal b h k =
    let e : 48 + (b - 48) ≡ b = omega arith in
    let same : lower_case b ≡ b = ground arith in
    let at = place-inside 10 48 (b - 48) 0 (bytes_from 97 26) (omega arith) in
    let other : (b == 95) ≡ false = ground arith in
    rw (other, same)
      (subst (λ c. place all_digit_bytes c 0 ≡ Digit.digit (b - 48)) e
        (at ∙ ap Digit.digit (omega arith)))

letter-place : (c : ℕ) → 97 ≤ c → c ≤ 122 → place all_digit_bytes c 0 ≡ Digit.digit (c - 97 + 10)
letter-place c h k =
    let e : 97 + (c - 97) ≡ c = omega arith in
    let at = place-inside 26 97 (c - 97) 10 [] (omega arith) in
    place-outside 10 48 c 0 (bytes_from 97 26) (inr (omega arith))
    ∙ subst (λ d. place (bytes_from 97 26) d 10 ≡ Digit.digit (10 + (c - 97))) e at
    ∙ ap Digit.digit (omega arith)

pub read_digit-lower : (b : ℕ) → 97 ≤ b → b ≤ 122 → read_digit b ≡ Digit.digit (b - 97 + 10)
unfolding read_digit
read_digit-lower b h k =
    let same : lower_case b ≡ b = ground arith in
    let other : (b == 95) ≡ false = ground arith in rw (other, same) (letter-place b h k)

pub read_digit-upper : (b : ℕ) → 65 ≤ b → b ≤ 90 → read_digit b ≡ Digit.digit (b - 65 + 10)
unfolding read_digit
read_digit-upper b h k =
    let low : lower_case b ≡ b + 32 = ground arith in
    let other : (b == 95) ≡ false = ground arith in
    rw (other, low)
      (letter-place (b + 32) (omega arith) (omega arith) ∙ ap Digit.digit (omega arith))

pub read_digit-underscore : read_digit 95 ≡ Digit.skip
unfolding read_digit
read_digit-underscore = refl

-- Between and around the three ranges there is no digit.
abbrev pub IsGap : ℕ → Type 0
IsGap b = (b < 48) ⊎ (((58 ≤ b) × (b < 65)) ⊎ (((91 ≤ b) × (b < 97)) ⊎ (123 ≤ b)))

gap-place : (b : ℕ) → IsGap b → place all_digit_bytes b 0 ≡ Digit.bad
gap-place b h =
    place-outside 10 48 b 0 (bytes_from 97 26) (ground arith)
    ∙ place-outside 26 97 b 10 [] (ground arith)

pub read_digit-bad : (b : ℕ) → IsGap b → b ≢ 95 → read_digit b ≡ Digit.bad
unfolding read_digit
read_digit-bad b h differs =
    let other : (b == 95) ≡ false = ground arith in
    let same : lower_case b ≡ b = ground arith in rw (other, same) (gap-place b h)
