-- ===== src/Lexer/Next.antt =====
-- src/frontend/lexer.rs: the whole of `Lexer::next`: white space, the states for marks, and the
-- states in which names, literals and comments go on. The text is the bytes from the offset on.
use vif.Prelude.{
  ℕ, zero, suc, ◌-◌, List, [], ◌∷◌, Bool, false, if◌then◌else◌, Option, none, some, length, take,
  drop,
}
use vif.Lexer.Chars.{is_whitespace}
use vif.Lexer.Token.{is_eof, Kind, IdentKind}
use vif.Lexer.Moves.{State}
use vif.Lexer.Run.{Lexed, lex, name_from}
use vif.Lexer.Names.{Name, name_of}
use vif.Lexer.Numbers.{Radix, Number, int_zero, int_dec, float_dot2}
use vif.Lexer.Memx.{Memx}
use vif.Lexer.Strings.{StrDiag, Str, str}
use vif.Lexer.Comments.{eat_until_newline}

-- The diagnostics of an invalid token; that of a bit width goes with the name.
pub data Diag : Type 0 where
  unexpected_character : ℕ → Diag
  invalid_string : StrDiag → Diag
  invalid_integer_literal invalid_float_literal : Diag

-- `TokenKind`, in groups.
pub data Token : Type 0 where
  mark : Kind → Token
  name : Name → Token
  special_ident : IdentKind → List ℕ → Token
  lit_int : Radix → List ℕ → Token
  lit_float lit_str lit_multi_line_str : List ℕ → Token
  invalid : Diag → Token

-- `self.bytes[self.span_start..self.offset]`
abbrev pub slice : List ℕ → List ℕ → List ℕ
slice start rest = take (length start - length rest) start

abbrev pub after_blanks : Option ℕ → List ℕ → List ℕ
after_blanks none cs = cs
after_blanks (some i) cs = drop i cs

-- The start of the first state.
unfoldable pub skip_blanks : Memx → List ℕ → List ℕ
skip_blanks m [] = []
skip_blanks m (c ∷ cs) =
    if is_whitespace c then after_blanks (m.memnechr_qpl (c ∷ cs) 32 9 10 13) (c ∷ cs) else c ∷ cs

-- A token and the text after it; nothing where the code reads past the buffer, does not end, or has
-- an `unreachable_unchecked`.
abbrev pub Lexeme : Type 0
Lexeme = Option (Token × List ℕ)

abbrev pub on_number : Number → Lexeme
on_number (Number.lit_int r text rest) = some (Token.lit_int r text, rest)
on_number (Number.lit_float text rest) = some (Token.lit_float text, rest)
on_number (Number.invalid_int rest) = some (Token.invalid Diag.invalid_integer_literal, rest)
on_number (Number.invalid_float rest) = some (Token.invalid Diag.invalid_float_literal, rest)
on_number Number.overrun = none

abbrev pub on_string : Kind → Str → Lexeme
on_string Kind.lit_str (Str.closed bytes rest) = some (Token.lit_str bytes, rest)
on_string (Kind.ident i) (Str.closed bytes rest) = some (Token.special_ident i bytes, rest)
on_string k (Str.broken d rest) = some (Token.invalid (Diag.invalid_string d), rest)
on_string _ _ = none

-- The state Ident, with the bytes of the token.
abbrev pub on_ident : Kind → List ℕ → List ℕ → Lexeme
on_ident (Kind.ident IdentKind.user) text rest = some (Token.name (name_of text), rest)
on_ident (Kind.ident IdentKind.user_escaped) text rest =
    some (Token.special_ident IdentKind.user_escaped (drop 2 (take (length text - 1) text)), rest)
on_ident (Kind.ident i) text rest = some (Token.special_ident i text, rest)
on_ident _ text rest = none

abbrev pub on_lines : List ℕ → Option (List ℕ) → Lexeme
on_lines start none = none
on_lines start (some rest) = some (Token.lit_multi_line_str (drop 2 (slice start rest)), rest)

-- A comment is followed by the first state again.
abbrev pub on_comment : (List ℕ → Lexeme) → Option (List ℕ) → Lexeme
on_comment more none = none
on_comment more (some rest) = more rest

-- The states in which a token goes on. Two turns of `eat_until_newline` are enough, if some are.
abbrev pub on_state : Memx → (List ℕ → Lexeme) → List ℕ → State → Kind → List ℕ → Lexeme
on_state m more start State.line_comment k rest = on_comment more (eat_until_newline m 2 rest)
on_state m more start State.ident k rest =
    on_ident k (slice start (name_from rest).1) (name_from rest).1
on_state m more start State.str k rest = on_string k (str m (suc (length rest)) [] rest)
on_state m more start State.int_zero k rest = on_number (int_zero (slice start rest) rest)
on_state m more start State.int_dec k rest = on_number (int_dec (slice start rest) rest)
on_state m more start State.float_dot2 k rest = on_number (float_dot2 (slice start rest) rest)
on_state m more start _ k rest = none

abbrev pub after_marks : Memx → (List ℕ → Lexeme) → List ℕ → Lexed → Lexeme
after_marks m more start (Lexed.done k rest) = some (Token.mark k, rest)
after_marks m more start (Lexed.rejected b rest) =
    some (Token.invalid (Diag.unexpected_character b), rest)
after_marks m more start (Lexed.goes_on s k rest) = on_state m more start s k rest
after_marks m more start (Lexed.goes_on_line rest) = on_lines start (eat_until_newline m 2 rest)
after_marks m more start Lexed.overrun = none

-- `Lexer::next`, on fuel for the comments that it passes.
unfoldable pub next : Memx → ℕ → List ℕ → Lexeme
next m zero cs = none
next m (suc fuel) cs =
    let start = skip_blanks m cs in after_marks m (λ cs'. next m fuel cs') start (lex start)

abbrev pub is_eof_token : Token → Bool
is_eof_token (Token.mark k) = is_eof k
is_eof_token _ = false

abbrev pub prepend : Token → Option (List Token) → Option (List Token)
prepend t none = none
prepend t (some ts) = some (t ∷ ts)

abbrev pub after_token : (List ℕ → Option (List Token)) → Lexeme → Option (List Token)
after_token more none = none
after_token more (some (t, rest)) = if is_eof_token t then some (t ∷ []) else prepend t (more rest)

-- The loop that reads all tokens of a text, the end among them.
unfoldable pub tokens : Memx → ℕ → List ℕ → Option (List Token)
tokens m zero cs = none
tokens m (suc fuel) cs = after_token (λ cs'. tokens m fuel cs') (next m (suc (length cs)) cs)
