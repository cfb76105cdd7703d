-- ===== src/Lexer/Integers.antt =====
-- src/ir/vuir/from_ast.rs: the integer that a literal of the lexer stands for.
use vif.Prelude.{
  ℕ, ◌≤◌, List, [], ◌∷◌, Bool, true, false, ◌≡◌, refl, arith, Option, none, some, drop,
  Option-cases, inl, inr,
}
use vif.Anyint.Sign.{Anyint}
use mathlib.Core.Path.{subst}
use vif.Anyint.Numeral.{read_digit, next_number, meaning}
use vif.Anyint.Parse.{parse_radix, digit_of, digit_of_lem, Parses, parse_radix_lem}
use vif.Anyint.Natural.{Natural}
use vif.Lexer.Classes.{digits_test, dec_test, bin_test, oct_test, hex_test}
use vif.Lexer.Numbers.{Radix, radix_base}
use vif.Lexer.Literals.{All, IsInt}

-- `&symbol[2..]`, but for the decimal ones.
abbrev pub literal_digits : Radix → List ℕ → List ℕ
literal_digits Radix.decimal symbol = symbol
literal_digits _ symbol = drop 2 symbol

-- The argument of the `unwrap`, before the sign.
unfoldable pub literal_value : Radix → List ℕ → Option Anyint
literal_value r symbol = parse_radix (radix_base r) (literal_digits r symbol)

abbrev is_some : Option ℕ → Bool
is_some none = false
is_some (some n) = true

-- Each byte of the class is a digit of the radix, or `_`.
abbrev AllDigits : ℕ → (ℕ → Bool) → Type 0
AllDigits radix test = (b n : ℕ) → test b ≡ true → is_some (next_number radix (digit_of b) n) ≡ true

bin_digits : AllDigits 2 bin_test
bin_digits b n h = ground arith

oct_digits : AllDigits 8 oct_test
oct_digits b n h = ground arith

dec_digits : AllDigits 10 dec_test
dec_digits b n h = ground arith

hex_digits : AllDigits 16 hex_test
hex_digits b n h = ground arith

meaning_some :
    (radix : ℕ) (test : ℕ → Bool) (bs : List ℕ) (n : ℕ)
    → AllDigits radix test
    → All test bs
    → is_some (meaning radix bs n) ≡ true
meaning_some radix test [] n fits h = refl
meaning_some radix test (b ∷ bs) n fits h =
    elim (Option-cases (next_number radix (read_digit b) n)) [
      | inl e ↦
          let f =
            subst (λ d. is_some (next_number radix d n) ≡ true) (digit_of_lem b) (fits b n h.0) in
          absurd (let g = rw e at f in cc)
      | inr (m, e) ↦ rw e (meaning_some radix test bs m fits h.1)
    ]

digits_some :
    (r : Radix) (text : List ℕ)
    → IsInt r text
    → is_some (meaning (radix_base r) (literal_digits r text) 0) ≡ true
digits_some Radix.binary text (ds, e, h, k) = rw e (meaning_some 2 bin_test ds 0 bin_digits h)
digits_some Radix.octal text (ds, e, h, k) = rw e (meaning_some 8 oct_test ds 0 oct_digits h)
digits_some Radix.hexadecimal text (ds, e, h, k) = rw e (meaning_some 16 hex_test ds 0 hex_digits h)
digits_some Radix.decimal [] h = absurd h
digits_some Radix.decimal (c ∷ ds) h =
    meaning_some 10 dec_test (c ∷ ds) 0 dec_digits (first c h.0, h.1)
  where
    first : (c : ℕ) → digits_test c ≡ true → dec_test c ≡ true
    first c h = rw h refl

-- The value of a literal is the number that its digits mean.
abbrev pub IsValued : Radix → List ℕ → Type 0
IsValued r text =
    (n : ℕ) × (x : Anyint) × (meaning (radix_base r) (literal_digits r text) 0 ≡ some n)
    × (literal_value r text ≡ some x)
    × Natural x n

parsed_value :
    (n? : Option ℕ) (x? : Option Anyint)
    → is_some n? ≡ true
    → Parses n? x?
    → (n : ℕ) × (x : Anyint) × (n? ≡ some n) × (x? ≡ some x) × Natural x n
parsed_value none x? h p = absurd cc
parsed_value (some n) x? h (x, e, v) = (n, x, refl, e, v)

radix_bounds : (r : Radix) → (2 ≤ radix_base r) × (radix_base r ≤ 36)
radix_bounds Radix.binary = omega arith
radix_bounds Radix.octal = omega arith
radix_bounds Radix.decimal = omega arith
radix_bounds Radix.hexadecimal = omega arith

-- The symbol of an integer literal of the grammar always has a value, the number that its digits
-- mean: the `unwrap` of the lowering to untyped code does not panic.
pub literal_value_lem : (r : Radix) (text : List ℕ) → IsInt r text → IsValued r text
unfolding literal_value
literal_value_lem r text h =
    let b = radix_bounds r in
    parsed_value _ _ (digits_some r text h)
      (parse_radix_lem (radix_base r) (literal_digits r text) b.0 b.1)
