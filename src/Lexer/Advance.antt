-- ===== src/Lexer/Advance.antt =====
-- What it means that `Lexer::next` advances in the text, and the tokens that are read at once.
use vif.Prelude.{
  ℕ, ◌+◌, ◌-◌, ◌<◌, List, [], ◌∷◌, ◌++◌, true, Option, none, some, length, length-append, take,
  drop, ◌≡◌, refl, sym, ap, ◌∙◌, arith, inl, inr, ◌⊎◌,
}
use vif.Lexer.Token.{Kind, IdentKind}
use vif.Lexer.Run.{name_from}
use vif.Lexer.Total.{HasNul}
use vif.Lexer.Numbers.{Number}
use vif.Lexer.Literals.{EndsNul, IsInt, IsFloat, Splits, Reads, append_assoc}
use vif.Lexer.Memx.{IsFirst, is_none_of4}
use vif.Lexer.Within.{Within, Within-refl, Within-trans, Within-drop, found_lem}
use vif.Lexer.Handover.{name_from-EndsNul}
use vif.Lexer.Next.{Diag, Token, slice, after_blanks, Lexeme, on_number, on_ident, is_eof_token}

-- The symbol of a number is a literal of the grammar.
abbrev pub Describes : Token → Type 0
Describes (Token.lit_int r symbol) = IsInt r symbol
Describes (Token.lit_float symbol) = IsFloat symbol
Describes _ = Unit {0}

-- A token that is described, and the end of the text or less text.
abbrev pub Advances : List ℕ → Lexeme → Type 0
Advances cs none = ⊥
Advances cs (some (t, rest)) =
    Describes t × ((is_eof_token t ≡ true) ⊎ (Within cs rest × (length rest < length cs)))

drop-append : (xs ys : List ℕ) → drop (length xs) (xs ++ ys) ≡ ys
drop-append [] ys = refl
drop-append (x ∷ xs) ys = drop-append xs ys

take-append : (xs ys : List ℕ) → take (length xs) (xs ++ ys) ≡ xs
take-append [] ys = refl
take-append (x ∷ xs) ys = ap (λ zs. x ∷ zs) (take-append xs ys)

Splits-length :
    (input t rest : List ℕ) → Splits input t rest → length input ≡ length t + length rest
Splits-length input t rest s = omega (arith, ap length (s.bytes), length-append {0} t rest)

pub Splits-Within :
    (input t rest : List ℕ) → Splits input t rest → Within input rest × (length rest < length input)
Splits-Within input t rest s =
    let l = Splits-length input t rest s in
    (
      record {
        skipped = length t;
        suffix = sym (ap (drop (length t)) (sym (s.bytes)) ∙ drop-append t rest);
        shorter = omega (arith, l);
        ends = s.ends;
      },
      omega (arith, l, s.progress),
    )

pub slice_lem : (start t rest : List ℕ) → Splits start t rest → slice start rest ≡ t
slice_lem start t rest s =
    let l = Splits-length start t rest s in
    let n : length start - length rest ≡ length t = omega (arith, l) in
    ap (λ k. take k start) n ∙ ap (take (length t)) (sym (s.bytes)) ∙ take-append t rest

-- What is true of the rest is true of the text.
pub Advances-later : (cs ds : List ℕ) (l : Lexeme) → Within cs ds → Advances ds l → Advances cs l
Advances-later cs ds none w h = h
Advances-later cs ds (some (t, rest)) w (d, inl e) = (d, inl e)
Advances-later cs ds (some (t, rest)) w (d, inr (v, lt)) =
    (d, inr (Within-trans cs ds rest w v, omega (arith, w.shorter)))

pub advanced :
    (input t rest : List ℕ) (x : Token)
    → Splits input t rest
    → Describes x
    → Advances input (some (x, rest))
advanced input t rest x s d = (d, inr (Splits-Within input t rest s))

pub on_number-Advances :
    (start : List ℕ) (n : Number) → Reads start n → Advances start (on_number n)
on_number-Advances start (Number.lit_int r text rest) (s, h) =
    advanced start text rest (Token.lit_int r text) s h
on_number-Advances start (Number.lit_float text rest) (s, h) =
    advanced start text rest (Token.lit_float text) s h
on_number-Advances start (Number.invalid_int rest) (t, s) =
    advanced start t rest (Token.invalid Diag.invalid_integer_literal) s tt
on_number-Advances start (Number.invalid_float rest) (t, s) =
    advanced start t rest (Token.invalid Diag.invalid_float_literal) s tt
on_number-Advances start Number.overrun h = absurd h

pub on_ident-Advances :
    (start t rest : List ℕ) (i : IdentKind)
    → Splits start t rest
    → Advances start (on_ident (Kind.ident i) (slice start rest) rest)
on_ident-Advances start t rest IdentKind.user s = (tt, inr (Splits-Within start t rest s))
on_ident-Advances start t rest IdentKind.user_escaped s = (tt, inr (Splits-Within start t rest s))
on_ident-Advances start t rest IdentKind.user_comptime s = (tt, inr (Splits-Within start t rest s))
on_ident-Advances start t rest IdentKind.builtin s = (tt, inr (Splits-Within start t rest s))

-- The bytes of a name are read.
pub name_split :
    (start t rest : List ℕ)
    → Splits start t rest
    → Splits start (t ++ (name_from rest).0) (name_from rest).1
name_split start t rest s =
    let r = name_from rest in
    let x = name_from-EndsNul rest in
    record {
      bytes = append_assoc t r.0 r.1 ∙ ap (λ ds. t ++ ds) x.0 ∙ s.bytes;
      ends = x.1 (s.ends);
      progress = omega (arith, length-append {0} t r.0, s.progress);
    }

pub EndsNul-HasNul : (cs : List ℕ) → EndsNul cs → HasNul cs
EndsNul-HasNul [] h = h
EndsNul-HasNul (c ∷ []) h = inl h
EndsNul-HasNul (c ∷ d ∷ cs) h = inr (EndsNul-HasNul (d ∷ cs) h)

pub skipped_lem :
    (cs : List ℕ) (i? : Option ℕ)
    → EndsNul cs
    → IsFirst (is_none_of4 32 9 10 13) cs i?
    → Within cs (after_blanks i? cs)
skipped_lem cs none n h = Within-refl cs n
skipped_lem cs (some i) n h =
    Within-drop i cs n (found_lem (is_none_of4 32 9 10 13) (some i) cs h n)
