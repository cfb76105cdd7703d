-- ===== src/Lexer/Chars.antt =====
-- src/frontend/lexer.rs: the module `char_class`, and the bytes that the lexer names.
use Prim.Native.Nat.{bit_and, bit_or}
use vif.Prelude.{ℕ, Bool, not, ◌&&◌, ◌||◌, ◌==◌, leb, if◌then◌else◌}

abbrev pub between : ℕ → ℕ → ℕ → Bool
between low b up = leb low b && leb b up

-- The classes, one bit each.
abbrev pub ident_start : ℕ
ident_start = 1

abbrev pub digit : ℕ
digit = 2

abbrev pub bin_digit : ℕ
bin_digit = 4

abbrev pub oct_digit : ℕ
oct_digit = 8

abbrev pub hex_digit : ℕ
hex_digit = 16

abbrev pub whitespace : ℕ
whitespace = 32

abbrev pub underscore_class : ℕ
underscore_class = 64

abbrev pub sign_class : ℕ
sign_class = 128

abbrev pub ident_cont : ℕ
ident_cont = bit_or ident_start digit

-- `if test { flags |= class }`
abbrev pub flag : Bool → ℕ → ℕ → ℕ
flag test class flags = if test then bit_or flags class else flags

-- An entry of `CHAR_TABLE`.
unfoldable pub char_table : ℕ → ℕ
char_table b =
    let letters = between 97 b 122 || between 65 b 90 || (b == 95) in
    let hex = between 48 b 57 || between 97 b 102 || between 65 b 70 in
    let blank = (b == 32) || (b == 9) || (b == 10) || (b == 13) in
    flag ((b == 43) || (b == 45)) sign_class (
      flag (b == 95) underscore_class (
        flag blank whitespace (
          flag hex hex_digit (
            flag (between 48 b 55) oct_digit (
              flag (between 48 b 49) bin_digit
                (flag (between 48 b 57) digit (flag letters ident_start 0)))))))

abbrev pub has_class : ℕ → ℕ → Bool
has_class b class = not (bit_and (char_table b) class == 0)

unfoldable pub is_ident_start : ℕ → Bool
is_ident_start b = has_class b ident_start

unfoldable pub is_ident_cont : ℕ → Bool
is_ident_cont b = has_class b ident_cont

unfoldable pub is_digit : ℕ → Bool
is_digit b = has_class b digit

unfoldable pub is_whitespace : ℕ → Bool
is_whitespace b = has_class b whitespace

unfoldable pub is_digit_or_uscore : ℕ → Bool
is_digit_or_uscore b = has_class b (bit_or digit underscore_class)

unfoldable pub is_bin_digit_or_uscore : ℕ → Bool
is_bin_digit_or_uscore b = has_class b (bit_or bin_digit underscore_class)

unfoldable pub is_oct_digit_or_uscore : ℕ → Bool
is_oct_digit_or_uscore b = has_class b (bit_or oct_digit underscore_class)

unfoldable pub is_hex_digit_or_uscore : ℕ → Bool
is_hex_digit_or_uscore b = has_class b (bit_or hex_digit underscore_class)
