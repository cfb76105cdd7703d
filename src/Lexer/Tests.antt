-- ===== src/Lexer/Tests.antt =====
-- Runs of the lexer on short texts.
use vif.Lexer.Chars.{is_whitespace, is_hex_digit_or_uscore}
use vif.Lexer.Numbers.{Radix, Number, eat, int_hex, int_zero}
use vif.Lexer.Integers.{IsValued}
use vif.Lexer.Reading.{int_zero-digit}
use vif.Lexer.Memx.{plain_memx, plain_memx-IsMemx}
use vif.Lexer.Strings.{
  Str, str, str_turn, escape_str, unicode_escape, code_loop, push_hex, hex_value, encode_utf8,
}
use vif.Lexer.Quoting.{quote}
use vif.Lexer.Comments.{eat_until_newline, eat_until_newline_lem, eat_until_newline-hangs}
use vif.Lexer.Lines.{IsClean}
use vif.Lexer.Next.{Token, next, skip_blanks, tokens}
use vif.Lexer.Advance.{Advances}
use vif.Lexer.Progress.{next-Advances}
use vif.Lexer.Tokens.{AllRead, tokens-AllRead, next-IsValued, next-quote, next-last_comment}
use vif.Prelude.{arith, some, none, true, ℕ, List, [], ◌∷◌, ◌++◌, ◌≡◌, refl, inl, inr}
use vif.Lexer.Token.{Punct, Kind, spelling}
use vif.Lexer.States.{transition}
use vif.Lexer.Run.{run, Lexed, lex}
use vif.Lexer.Names.{Name, name_of}
use vif.Lexer.Widths.{prefix, number_of, IsIntName, name_of-prefix}
use vif.Lexer.Chars.{is_digit, char_table}
use vif.Lexer.Munch.{lex-spelling}
use vif.Lexer.Faithful.{lex_lem, IsFaithful}
use vif.Lexer.Total.{lex-IsFinished, IsFinished}

-- `>>|=` and the end of the text.
abbrev shift_text : List ℕ
shift_text = 62 ∷ 62 ∷ 124 ∷ 61 ∷ 0 ∷ []

-- `*=x` and the end of the text.
abbrev star_text : List ℕ
star_text = 42 ∷ 61 ∷ 120 ∷ 0 ∷ []

lex-spelling_example :
    lex (spelling Punct.gt_gt_pipe ++ (32 ∷ 0 ∷ []))
    ≡ Lexed.done (Kind.punct Punct.gt_gt_pipe) (32 ∷ 0 ∷ [])
unfolding spelling
lex-spelling_example = lex-spelling Punct.gt_gt_pipe 32 (0 ∷ []) refl refl

lex_lem_example : IsFaithful shift_text (lex shift_text)
lex_lem_example = lex_lem shift_text

lex-IsFinished_example : IsFinished (lex shift_text)
lex-IsFinished_example = lex-IsFinished shift_text (inr (inr (inr (inr (inl refl)))))

shift_run : lex shift_text ≡ Lexed.done (Kind.punct Punct.gt_gt_pipe_eq) (0 ∷ [])
unfolding lex run transition
shift_run = refl

star_run : lex star_text ≡ Lexed.done (Kind.punct Punct.star) (61 ∷ 120 ∷ 0 ∷ [])
unfolding lex run transition
star_run = refl

-- `i32` and `u70000`.
name_of-prefix_example :
    IsIntName true (number_of (51 ∷ 50 ∷ [])) (name_of (prefix true ∷ 51 ∷ 50 ∷ []))
unfolding is_digit char_table
name_of-prefix_example = name_of-prefix true 51 (50 ∷ []) refl

wide_run : name_of (117 ∷ 55 ∷ 48 ∷ 48 ∷ 48 ∷ 48 ∷ []) ≡ Name.invalid_width
unfolding name_of is_digit char_table
wide_run = refl

-- `0x1f` and the end of the text.
abbrev hex_text : List ℕ
hex_text = 48 ∷ 120 ∷ 49 ∷ 102 ∷ 0 ∷ []

hex_text-IsClean : IsClean hex_text
hex_text-IsClean = (
  λ e. absurd (omega arith),
  (
    λ e. absurd (omega arith),
    (λ e. absurd (omega arith), (λ e. absurd (omega arith), (λ e. absurd (omega arith), tt))),
  ),
)

tokens-AllRead_example : AllRead (tokens plain_memx 6 hex_text)
tokens-AllRead_example =
    tokens-AllRead plain_memx plain_memx-IsMemx 6 hex_text refl hex_text-IsClean (omega arith)

next-Advances_example : Advances hex_text (next plain_memx 6 hex_text)
next-Advances_example =
    next-Advances plain_memx plain_memx-IsMemx 6 hex_text refl hex_text-IsClean (omega arith)

hex_run :
    next plain_memx 6 hex_text
    ≡ some (Token.lit_int Radix.hexadecimal (48 ∷ 120 ∷ 49 ∷ 102 ∷ []), 0 ∷ [])
unfolding next skip_blanks is_whitespace char_table lex run transition int_zero int_hex eat
    is_hex_digit_or_uscore
hex_run = refl

next-IsValued_example : IsValued Radix.hexadecimal (48 ∷ 120 ∷ 49 ∷ 102 ∷ [])
next-IsValued_example =
    next-IsValued plain_memx plain_memx-IsMemx 6 hex_text (0 ∷ []) Radix.hexadecimal
      (48 ∷ 120 ∷ 49 ∷ 102 ∷ []) refl hex_text-IsClean (omega arith) hex_run

-- The bytes of `a"`, a line feed and a NUL.
next-quote_example :
    next plain_memx 1 (34 ∷ (quote (97 ∷ 34 ∷ 10 ∷ 0 ∷ []) ++ (34 ∷ 0 ∷ [])))
    ≡ some (Token.lit_str (97 ∷ 34 ∷ 10 ∷ 0 ∷ []), 0 ∷ [])
next-quote_example = next-quote plain_memx plain_memx-IsMemx 0 (97 ∷ 34 ∷ 10 ∷ 0 ∷ []) (0 ∷ [])

-- `\u{e9}` is the two bytes of a letter with an accent.
unicode_run :
    str plain_memx 9 [] (92 ∷ 117 ∷ 123 ∷ 101 ∷ 57 ∷ 125 ∷ 34 ∷ 0 ∷ [])
    ≡ Str.closed (195 ∷ 169 ∷ []) (0 ∷ [])
unfolding str str_turn escape_str unicode_escape code_loop push_hex hex_value encode_utf8
unicode_run = refl

-- A letter, a line feed, a letter and the end of the text.
eat_until_newline_lem_example :
    (eat_until_newline plain_memx 2 (97 ∷ 10 ∷ 98 ∷ 0 ∷ []) ≡ some (10 ∷ 98 ∷ 0 ∷ []))
    × ((d : ℕ)
        → eat_until_newline plain_memx 2 (97 ∷ 13 ∷ 10 ∷ d ∷ 98 ∷ 0 ∷ [])
          ≡ some (10 ∷ d ∷ 98 ∷ 0 ∷ []))
eat_until_newline_lem_example =
    eat_until_newline_lem plain_memx plain_memx-IsMemx 0 (97 ∷ []) (98 ∷ 0 ∷ []) (refl, tt)

eat_until_newline-hangs_example : eat_until_newline plain_memx 9 (97 ∷ 13 ∷ 98 ∷ 0 ∷ []) ≡ none
eat_until_newline-hangs_example =
    eat_until_newline-hangs plain_memx plain_memx-IsMemx 9 (97 ∷ []) 98 (0 ∷ []) (refl, tt)
      (λ e. omega arith)

-- `//a` at the end of the text.
next-last_comment_example :
    next plain_memx 5 (47 ∷ 47 ∷ 97 ∷ 0 ∷ []) ≡ next plain_memx 4 (97 ∷ 0 ∷ [])
next-last_comment_example =
    next-last_comment plain_memx plain_memx-IsMemx 4 97 (0 ∷ []) (refl, (refl, tt))

-- `02`
int_zero-digit_example :
    int_zero (48 ∷ []) (50 ∷ 0 ∷ []) ≡ Number.lit_int Radix.decimal (48 ∷ []) (50 ∷ 0 ∷ [])
int_zero-digit_example = int_zero-digit 50 (0 ∷ []) (omega arith) (omega arith)
