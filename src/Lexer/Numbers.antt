-- ===== src/Lexer/Numbers.antt =====
-- src/frontend/lexer.rs: the states for numbers, from IntZero to FloatExp2. A state is given the
-- bytes of the token that are read, `text`, and the text after them; the symbol that is interned is
-- the bytes themselves. The clauses for no byte are a read past the buffer, which the NUL at its end
-- rules out.
use vif.Prelude.{ℕ, List, [], ◌∷◌, ◌++◌, Bool, true, false, not, ◌||◌, ◌==◌, if◌then◌else◌}
use vif.Lexer.Chars.{
  is_digit, is_digit_or_uscore, is_bin_digit_or_uscore, is_oct_digit_or_uscore,
  is_hex_digit_or_uscore,
}

-- `Radix`
pub data Radix : Type 0 where
  binary octal decimal hexadecimal : Radix

-- `Radix::base`
abbrev pub radix_base : Radix → ℕ
radix_base Radix.binary = 2
radix_base Radix.octal = 8
radix_base Radix.decimal = 10
radix_base Radix.hexadecimal = 16

-- The token and the text after it. An invalid number has a diagnostic of its own.
pub data Number : Type 0 where
  lit_int : Radix → List ℕ → List ℕ → Number
  lit_float : List ℕ → List ℕ → Number
  invalid_int : List ℕ → Number
  invalid_float : List ℕ → Number
  overrun : Number

-- `while test(self.peek()) { self.offset += 1 }`: the bytes that are passed, and the text after.
unfoldable pub eat : (ℕ → Bool) → List ℕ → List ℕ × List ℕ
eat test [] = ([], [])
eat test (c ∷ cs) = let more = eat test cs in if test c then (c ∷ more.0, more.1) else ([], c ∷ cs)

-- Whether the loop sets `seen_digit`: a byte that it passes is not `_`.
abbrev pub seen_in : List ℕ → Bool
seen_in [] = false
seen_in (c ∷ cs) = not (c == 95) || seen_in cs

-- The states IntBin, IntOct and IntHex.
abbrev pub int_after : Radix → List ℕ → List ℕ × List ℕ → Number
int_after radix text (digits, rest) =
    if seen_in digits then Number.lit_int radix (text ++ digits) rest else Number.invalid_int rest

unfoldable pub int_bin : List ℕ → List ℕ → Number
int_bin text cs = int_after Radix.binary text (eat is_bin_digit_or_uscore cs)

unfoldable pub int_oct : List ℕ → List ℕ → Number
int_oct text cs = int_after Radix.octal text (eat is_oct_digit_or_uscore cs)

unfoldable pub int_hex : List ℕ → List ℕ → Number
int_hex text cs = int_after Radix.hexadecimal text (eat is_hex_digit_or_uscore cs)

abbrev pub exponent_after : Bool → List ℕ → List ℕ × List ℕ → Number
exponent_after seen text (digits, rest) =
    if seen || seen_in digits
    then Number.lit_float (text ++ digits) rest
    else Number.invalid_float rest

unfoldable pub float_exp2 : Bool → List ℕ → List ℕ → Number
float_exp2 seen text cs = exponent_after seen text (eat is_digit_or_uscore cs)

unfoldable pub float_exp1 : List ℕ → List ℕ → Number
float_exp1 text [] = Number.overrun
float_exp1 text (c ∷ cs) =
    if (c == 43) || (c == 45)
    then float_exp2 false (text ++ (c ∷ [])) cs
    else if is_digit c
    then float_exp2 true (text ++ (c ∷ [])) cs
    else if c == 95
    then float_exp2 false text (c ∷ cs)
    else Number.invalid_float (c ∷ cs)

abbrev pub is_exponent : ℕ → Bool
is_exponent c = (c == 101) || (c == 69)

abbrev pub fraction_after : List ℕ → List ℕ → Number
fraction_after text [] = Number.overrun
fraction_after text (c ∷ cs) =
    if is_exponent c then float_exp1 (text ++ (c ∷ [])) cs else Number.lit_float text (c ∷ cs)

unfoldable pub float_dot2 : List ℕ → List ℕ → Number
float_dot2 text cs = let r = eat is_digit_or_uscore cs in fraction_after (text ++ r.0) r.1

-- `text` is without the dot, to which `self.offset -= 2` goes back.
unfoldable pub float_dot1 : List ℕ → List ℕ → Number
float_dot1 text [] = Number.overrun
float_dot1 text (c ∷ cs) =
    if is_exponent c
    then Number.invalid_float cs
    else if is_digit c
    then float_dot2 (text ++ (46 ∷ c ∷ [])) cs
    else if c == 46
    then Number.lit_int Radix.decimal text (46 ∷ c ∷ cs)
    else Number.lit_float (text ++ (46 ∷ [])) (c ∷ cs)

abbrev pub whole_after : List ℕ → List ℕ → Number
whole_after text [] = Number.overrun
whole_after text (c ∷ cs) =
    if c == 46
    then float_dot1 text cs
    else if is_exponent c
    then float_exp1 (text ++ (c ∷ [])) cs
    else Number.lit_int Radix.decimal text (c ∷ cs)

unfoldable pub int_dec : List ℕ → List ℕ → Number
int_dec text cs = let r = eat is_digit_or_uscore cs in whole_after (text ++ r.0) r.1

unfoldable pub int_zero : List ℕ → List ℕ → Number
int_zero text [] = Number.overrun
int_zero text (c ∷ cs) =
    if c == 98
    then int_bin (text ++ (c ∷ [])) cs
    else if c == 111
    then int_oct (text ++ (c ∷ [])) cs
    else if c == 120
    then int_hex (text ++ (c ∷ [])) cs
    else if c == 46
    then float_dot1 text cs
    else if is_exponent c
    then float_exp1 (text ++ (c ∷ [])) cs
    else if is_bin_digit_or_uscore c
    then int_dec (text ++ (c ∷ [])) cs
    else Number.lit_int Radix.decimal text (c ∷ cs)
