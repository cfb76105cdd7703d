-- ===== src/Lexer/Strings.antt =====
-- src/frontend/lexer.rs: the states Str and EscapeStr, and `recover_invalid_string`. The text is the
-- bytes from the offset on; the clauses for no byte are a read past the buffer. `pad` is the scratch
-- pad, from which the symbol is interned.
use Prim.Native.Nat.{bit_or}
use vif.Prelude.{
  ℕ, zero, suc, ◌+◌, ◌-◌, ◌*◌, ◌/◌, ◌%◌, ◌^◌, List, [], ◌∷◌, ◌++◌, Bool, true, false, not, ◌&&◌,
  ◌||◌, ◌==◌, ltb, leb, if◌then◌else◌, Option, none, some, length, take, drop,
}
use vif.Lexer.Chars.{between}
use vif.Lexer.Memx.{Memx}

pub data StrDiag : Type 0 where
  unexpected_eof unexpected_character invalid_escape invalid_unicode_escape : StrDiag

-- The bytes of the string, or a diagnostic and an invalid token; then the text after the token.
pub data Str : Type 0 where
  closed : List ℕ → List ℕ → Str
  broken : StrDiag → List ℕ → Str
  overrun : Str

pub data Escape : Type 0 where
  pushed : List ℕ → List ℕ → Escape
  wrong : StrDiag → List ℕ → Escape
  overrun : Escape

-- `self.offset = self.len`, from an offset in the buffer.
abbrev pub to_end : List ℕ → List ℕ
to_end cs = drop (length cs - 1) cs

-- How far a search goes: to the end of the text, if it finds nothing.
abbrev pub found_at : Option ℕ → List ℕ → ℕ
found_at none cs = length cs - 1
found_at (some i) cs = i

-- `eat_until3`: the number of bytes that it passes.
abbrev pub eat_until3 : Memx → List ℕ → ℕ → ℕ → ℕ → ℕ
eat_until3 m cs a b c = found_at (m.memchr_tpl cs a b c) cs

abbrev pub after_quote : List ℕ → List ℕ
after_quote [] = []
after_quote (c ∷ cs) = if c == 34 then cs else c ∷ cs

abbrev pub recovered : Option ℕ → List ℕ → List ℕ
recovered none cs = to_end cs
recovered (some i) cs = after_quote (drop i cs)

-- `recover_invalid_string`
unfoldable pub recover : Memx → List ℕ → List ℕ
recover m cs = if leb (length cs) 1 then to_end cs else recovered (m.memchr_tpl cs 34 10 13) cs

abbrev pub is_newline : ℕ → Bool
is_newline c = (c == 10) || (c == 13)

-- `if matches!(chr, b'\n' | b'\r') { self.offset -= 1 }`
abbrev pub unread_newline : ℕ → List ℕ → List ℕ
unread_newline c cs = if is_newline c then c ∷ cs else cs

-- `u8::is_ascii_hexdigit`
abbrev pub is_hexdigit : ℕ → Bool
is_hexdigit c = between 48 c 57 || between 97 c 102 || between 65 c 70

unfoldable pub hex_value : ℕ → ℕ
hex_value c =
    if between 48 c 57 then c - 48 else if between 97 c 102 then c - 97 + 10 else c - 65 + 10

-- `hex_value(hi) << 4 | hex_value(lo)`
unfoldable pub hex_byte : ℕ → ℕ → ℕ
hex_byte hi lo = bit_or (hex_value hi * 16 % 256) (hex_value lo)

abbrev pub hex_resume : ℕ → ℕ → List ℕ → List ℕ
hex_resume hi lo cs =
    if lo == 0
    then to_end (lo ∷ cs)
    else if is_newline hi
    then hi ∷ lo ∷ cs
    else unread_newline lo cs

abbrev pub hex_low : Memx → ℕ → List ℕ → Escape
hex_low m hi [] = Escape.overrun
hex_low m hi (lo ∷ cs) =
    if is_hexdigit hi && is_hexdigit lo
    then Escape.pushed (hex_byte hi lo ∷ []) cs
    else Escape.wrong StrDiag.invalid_escape (recover m (hex_resume hi lo cs))

-- After `\x`.
unfoldable pub hex_escape : Memx → List ℕ → Escape
hex_escape m [] = Escape.overrun
hex_escape m (hi ∷ cs) =
    if hi == 0
    then Escape.wrong StrDiag.invalid_escape (recover m (to_end (hi ∷ cs)))
    else hex_low m hi cs

-- `char::from_u32`: the scalar values are those that are no surrogates.
abbrev pub is_scalar : ℕ → Bool
is_scalar n = ltb n 55296 || (ltb 57343 n && ltb n 1114112)

-- `char::encode_utf8`
unfoldable pub encode_utf8 : ℕ → List ℕ
encode_utf8 n =
    if ltb n 128
    then n ∷ []
    else if ltb n 2048
    then (192 + n / 64) ∷ (128 + n % 64) ∷ []
    else if ltb n 65536
    then (224 + n / 4096) ∷ (128 + n / 64 % 64) ∷ (128 + n % 64) ∷ []
    else (240 + n / 262144) ∷ (128 + n / 4096 % 64) ∷ (128 + n / 64 % 64) ∷ (128 + n % 64) ∷ []

-- After the closing brace, where `count` digits are the number `code`.
abbrev pub code_done : Memx → ℕ → ℕ → List ℕ → Escape
code_done m code count cs =
    if not (ltb 6 count) && is_scalar code
    then Escape.pushed (encode_utf8 code) cs
    else Escape.wrong StrDiag.invalid_unicode_escape (recover m cs)

abbrev pub is_last : List ℕ → Bool
is_last [] = true
is_last (c ∷ cs) = false

-- `(codepoint << 4) | hex_value(digit)`, on a `u32`.
unfoldable pub push_hex : ℕ → ℕ → ℕ
push_hex code c = bit_or (code * 16 % 2 ^ 32) (hex_value c)

-- The loop up to the closing brace.
unfoldable pub code_loop : Memx → ℕ → ℕ → List ℕ → Escape
code_loop m code count [] = Escape.overrun
code_loop m code count (c ∷ cs) =
    let rest = code_loop m (push_hex code c) (suc count) cs in
    if c == 125
    then code_done m code count cs
    else if is_last cs
    then Escape.wrong StrDiag.unexpected_eof (recover m (c ∷ cs))
    else if is_hexdigit c
    then rest
    else Escape.wrong StrDiag.invalid_unicode_escape (recover m (unread_newline c cs))

abbrev pub unicode_resume : ℕ → List ℕ → List ℕ
unicode_resume c [] = c ∷ []
unicode_resume c (d ∷ cs) = unread_newline c (d ∷ cs)

-- After `\u`.
unfoldable pub unicode_escape : Memx → List ℕ → Escape
unicode_escape m [] = Escape.overrun
unicode_escape m (c ∷ cs) =
    if c == 123
    then code_loop m 0 0 cs
    else Escape.wrong StrDiag.invalid_unicode_escape (recover m (unicode_resume c cs))

-- The letters that stand for one byte.
abbrev pub simple_escapes : List (ℕ × ℕ)
simple_escapes = (110, 10) ∷ (114, 13) ∷ (116, 9) ∷ (34, 34) ∷ (92, 92) ∷ (48, 0) ∷ []

abbrev pub on_simple : List (ℕ × ℕ) → ℕ → List ℕ → Escape → Escape
on_simple [] c cs other = other
on_simple ((letter, byte) ∷ table) c cs other =
    if c == letter then Escape.pushed (byte ∷ []) cs else on_simple table c cs other

-- EscapeStr, after the backslash.
unfoldable pub escape_str : Memx → List ℕ → Escape
escape_str m [] = Escape.overrun
escape_str m (c ∷ cs) =
    if c == 0
    then Escape.wrong StrDiag.unexpected_eof (recover m (to_end (c ∷ cs)))
    else on_simple simple_escapes c cs (
        if c == 120
        then hex_escape m cs
        else if c == 117
        then unicode_escape m cs
        else Escape.wrong StrDiag.invalid_escape (recover m (unread_newline c cs)))

-- One turn of the loop in Str: it ends, or goes on with more bytes.
pub data StrTurn : Type 0 where
  ended : Str → StrTurn
  again : List ℕ → List ℕ → StrTurn

abbrev pub escaped : List ℕ → Escape → StrTurn
escaped pad (Escape.pushed bytes cs) = StrTurn.again (pad ++ bytes) cs
escaped pad (Escape.wrong d cs) = StrTurn.ended (Str.broken d cs)
escaped pad Escape.overrun = StrTurn.ended Str.overrun

-- A byte with no meaning of its own is read with those up to the next one that has.
abbrev pub plain_bytes : List ℕ → ℕ → List ℕ → ℕ → StrTurn
plain_bytes pad c cs n = StrTurn.again (pad ++ (c ∷ take n cs)) (drop n cs)

unfoldable pub str_turn : Memx → List ℕ → ℕ → List ℕ → StrTurn
str_turn m pad c cs =
    if c == 0
    then StrTurn.ended (Str.broken StrDiag.unexpected_eof (recover m (to_end (c ∷ cs))))
    else if c == 10
    then StrTurn.ended (Str.broken StrDiag.unexpected_character cs)
    else if c == 34
    then StrTurn.ended (Str.closed pad cs)
    else if c == 92
    then escaped pad (escape_str m cs)
    else plain_bytes pad c cs (eat_until3 m cs 34 92 10)

abbrev pub str_settle : (List ℕ → List ℕ → Str) → StrTurn → Str
str_settle more (StrTurn.ended s) = s
str_settle more (StrTurn.again pad cs) = more pad cs

-- The loop, on fuel: every turn that goes on reads a byte.
unfoldable pub str : Memx → ℕ → List ℕ → List ℕ → Str
str m zero pad cs = Str.overrun
str m (suc fuel) pad [] = Str.overrun
str m (suc fuel) pad (c ∷ cs) = str_settle (λ pad' cs'. str m fuel pad' cs') (str_turn m pad c cs)
