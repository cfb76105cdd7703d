-- ===== src/Lexer/Tokens.antt =====
-- The tokens of a whole text, the value of the integer literals, and the round trip of a string.
use vif.Prelude.{
  ℕ, zero, suc, ◌≤◌, ◌<◌, List, [], ◌∷◌, ◌++◌, true, false, Option, none, some, length,
  length-append, ◌≡◌, refl, sym, ap, ◌∙◌, arith, inl, inr, Bool-cases, Option-cases,
}
use mathlib.Core.Path.{subst}
use vif.Lexer.Chars.{is_whitespace, char_table}
use vif.Lexer.Token.{Punct, Kind}
use vif.Lexer.Moves.{State}
use vif.Lexer.States.{transition}
use vif.Lexer.Run.{Lexed, run, lex}
use vif.Lexer.Numbers.{Radix}
use vif.Lexer.Literals.{EndsNul}
use vif.Lexer.Integers.{IsValued, literal_value_lem}
use vif.Lexer.Memx.{Memx, IsMemx, NoneOf}
use vif.Lexer.Comments.{eat_until_newline, is_break, eat_until_newline-no_break}
use vif.Lexer.Within.{Within}
use vif.Lexer.Strings.{str}
use vif.Lexer.Quoting.{quote, escape_of, str-quote}
use vif.Lexer.Lines.{IsClean, IsClean-Within}
use vif.Lexer.Next.{
  Token, Lexeme, skip_blanks, on_comment, on_string, after_marks, next, is_eof_token, prepend,
  after_token, tokens,
}
use vif.Lexer.Advance.{Advances}
use vif.Lexer.Progress.{next-Advances}

-- Tokens with one end of the text, the last of them.
abbrev pub IsTokens : List Token → Type 0
IsTokens [] = ⊥
IsTokens (t ∷ []) = is_eof_token t ≡ true
IsTokens (t ∷ u ∷ ts) = (is_eof_token t ≡ false) × IsTokens (u ∷ ts)

abbrev pub AllRead : Option (List Token) → Type 0
AllRead none = ⊥
AllRead (some ts) = IsTokens ts

prepend-AllRead :
    (t : Token) (ts? : Option (List Token))
    → is_eof_token t ≡ false
    → AllRead ts?
    → AllRead (prepend t ts?)
prepend-AllRead t none e h = h
prepend-AllRead t (some []) e h = absurd h
prepend-AllRead t (some (u ∷ ts)) e h = (e, h)

after_token-AllRead :
    (cs : List ℕ) (more : List ℕ → Option (List Token)) (l : Lexeme)
    → Advances cs l
    → ((r : List ℕ) → Within cs r → length r < length cs → AllRead (more r))
    → AllRead (after_token more l)
after_token-AllRead cs more none h ih = h
after_token-AllRead cs more (some (t, rest)) (d, h) ih = elim (Bool-cases (is_eof_token t)) [
  | inl e ↦ rw e e
  | inr e ↦ rw e (elim h [
    | inl eof ↦ absurd cc
    | inr (w, lt) ↦ prepend-AllRead t (more rest) e (ih rest w lt)
  ])
]

-- A literal of the lexer has a value.
described-IsValued :
    (cs rest : List ℕ) (r : Radix) (symbol : List ℕ)
    → Advances cs (some (Token.lit_int r symbol, rest))
    → IsValued r symbol
described-IsValued cs rest r symbol (d, h) = literal_value_lem r symbol d

-- The state Str is entered with the text after the quote.
lex_quote :
    (c : ℕ) (cs : List ℕ) → lex (34 ∷ c ∷ cs) ≡ Lexed.goes_on State.str Kind.lit_str (c ∷ cs)
unfolding lex run transition
lex_quote c cs = refl

quote_cons : (bs rest : List ℕ) → (c : ℕ) × (cs : List ℕ) × (quote bs ++ (34 ∷ rest) ≡ c ∷ cs)
unfolding quote
quote_cons [] rest = (34, rest, refl)
quote_cons (b ∷ bs) rest = elim (Option-cases (escape_of b)) [
  | inl e ↦ (b, quote bs ++ (34 ∷ rest), rw e refl)
  | inr (letter, e) ↦ (92, letter ∷ (quote bs ++ (34 ∷ rest)), rw e refl)
]

length-quote : (bs : List ℕ) → length bs ≤ length (quote bs)
unfolding quote
length-quote [] = omega arith
length-quote (b ∷ bs) = elim (Option-cases (escape_of b)) [
  | inl e ↦ rw e (omega (arith, length-quote bs))
  | inr (letter, e) ↦ rw e (omega (arith, length-quote bs))
]

module _ (m : Memx) (law : IsMemx m) where
  -- On a text that ends with the NUL and has no stray carriage return, with more fuel than bytes,
  -- reading token after token ends: with the end of the text, which is the only one.
  pub tokens-AllRead :
      (fuel : ℕ) (cs : List ℕ)
      → EndsNul cs
      → IsClean cs
      → length cs < fuel
      → AllRead (tokens m fuel cs)
  unfolding tokens
  tokens-AllRead zero cs n clean lt = absurd (omega arith)
  tokens-AllRead (suc fuel) cs n clean lt =
      after_token-AllRead cs (λ r. tokens m fuel r) (next m (suc (length cs)) cs)
        (next-Advances m law (suc (length cs)) cs n clean (omega arith))
        (λ r w less. tokens-AllRead fuel r (w.ends) (IsClean-Within cs r clean w) (omega arith))

  -- The symbol of every integer literal that `next` returns has a value, the number that its digits
  -- mean in the radix of the literal.
  pub next-IsValued :
      (fuel : ℕ) (cs rest : List ℕ) (r : Radix) (symbol : List ℕ)
      → EndsNul cs
      → IsClean cs
      → length cs < fuel
      → next m fuel cs ≡ some (Token.lit_int r symbol, rest)
      → IsValued r symbol
  next-IsValued fuel cs rest r symbol n clean lt e =
      described-IsValued cs rest r symbol
        (subst (Advances cs) e (next-Advances m law fuel cs n clean lt))

  lexed_string :
      (bs rest : List ℕ)
      → on_string Kind.lit_str
          (str m (suc (length (quote bs ++ (34 ∷ rest)))) [] (quote bs ++ (34 ∷ rest)))
        ≡ some (Token.lit_str bs, rest)
  lexed_string bs rest = ap (on_string Kind.lit_str) (
      str-quote m law (suc (length (quote bs ++ (34 ∷ rest)))) bs [] rest
        (omega (arith, length-append {0} (quote bs) (34 ∷ rest), length-quote bs)))

  next_at_quote :
      (fuel c : ℕ) (cs : List ℕ)
      → next m (suc fuel) (34 ∷ c ∷ cs)
        ≡ on_string Kind.lit_str (str m (suc (length (c ∷ cs))) [] (c ∷ cs))
  unfolding next skip_blanks is_whitespace char_table
  next_at_quote fuel c cs = ap (after_marks m (λ r. next m fuel r) (34 ∷ c ∷ cs)) (lex_quote c cs)

  -- Bytes that are printed as a string literal are read back as the string of these bytes, with
  -- the text after it, on any fuel.
  pub next-quote :
      (fuel : ℕ) (bs rest : List ℕ)
      → next m (suc fuel) (34 ∷ (quote bs ++ (34 ∷ rest))) ≡ some (Token.lit_str bs, rest)
  next-quote fuel bs rest =
      let (c, cs, e) = quote_cons bs rest in
      ap (λ text. next m (suc fuel) (34 ∷ text)) e
      ∙ next_at_quote fuel c cs
      ∙ ap (λ text. on_string Kind.lit_str (str m (suc (length text)) [] text)) (sym e)
      ∙ lexed_string bs rest

  lex_comment :
      (c : ℕ) (cs : List ℕ)
      → lex (47 ∷ 47 ∷ c ∷ cs) ≡ Lexed.goes_on State.line_comment (Kind.punct Punct.slash) (c ∷ cs)
  unfolding lex run transition
  lex_comment c cs = refl

  next_at_comment :
      (fuel c : ℕ) (cs : List ℕ)
      → next m (suc fuel) (47 ∷ 47 ∷ c ∷ cs)
        ≡ on_comment (λ r. next m fuel r) (eat_until_newline m 2 (c ∷ cs))
  unfolding next skip_blanks is_whitespace char_table
  next_at_comment fuel c cs =
      ap (after_marks m (λ r. next m fuel r) (47 ∷ 47 ∷ c ∷ cs)) (lex_comment c cs)

  -- A comment on the last line, with no line break after it, is not passed: `next` goes on with the
  -- text of the comment.
  pub next-last_comment :
      (fuel c : ℕ) (cs : List ℕ)
      → NoneOf is_break (c ∷ cs)
      → next m (suc fuel) (47 ∷ 47 ∷ c ∷ cs) ≡ next m fuel (c ∷ cs)
  next-last_comment fuel c cs h =
      next_at_comment fuel c cs
      ∙ ap (on_comment (λ r. next m fuel r)) (eat_until_newline-no_break m law 1 (c ∷ cs) h)
