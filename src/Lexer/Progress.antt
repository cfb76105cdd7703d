-- ===== src/Lexer/Progress.antt =====
-- `Lexer::next` returns a token of every text that ends with the NUL and has no stray carriage
-- return, and reads some of it, so that the tokens of the text have an end.
use vif.Prelude.{
  ℕ, zero, suc, ◌<◌, List, [], ◌∷◌, ◌++◌, false, Option, none, some, length, ◌≡◌, refl, arith, inl,
  inr, ◌⊎◌, Bool-cases,
}
use vif.Lexer.Chars.{is_whitespace}
use vif.Lexer.Token.{Kind, IdentKind}
use vif.Lexer.Moves.{State}
use vif.Lexer.Spelling.{is_mark_state}
use vif.Lexer.Run.{Lexed, lex, name_from}
use vif.Lexer.Total.{IsFinished, lex-IsFinished}
use vif.Lexer.Numbers.{int_zero, int_dec, float_dot2}
use vif.Lexer.Literals.{EndsNul, Splits}
use vif.Lexer.Reading.{int_zero_lem, int_dec_lem, float_dot2_lem}
use vif.Lexer.Memx.{Memx, IsMemx}
use vif.Lexer.Within.{Within, Within-refl, Within-trans}
use vif.Lexer.Strings.{Str, str}
use vif.Lexer.StringEnds.{StrEnds, str-StrEnds}
use vif.Lexer.Comments.{eat_until_newline}
use vif.Lexer.Lines.{IsClean, IsClean-Within, Stops, eat_until_newline-Stops}
use vif.Lexer.Entering.{Known}
use vif.Lexer.Handover.{HandsOver, lex-HandsOver}
use vif.Lexer.Next.{
  skip_blanks, Lexeme, on_string, on_lines, on_comment, on_state, after_marks, next,
}
use vif.Lexer.Advance.{
  Advances, Splits-Within, slice_lem, Advances-later, on_number-Advances, on_ident-Advances,
  name_split, EndsNul-HasNul, skipped_lem,
}

module _ (m : Memx) (law : IsMemx m) where
  skip_blanks-Within : (cs : List ℕ) → EndsNul cs → Within cs (skip_blanks m cs)
  unfolding skip_blanks
  skip_blanks-Within [] n = absurd n
  skip_blanks-Within (c ∷ cs) n = elim (Bool-cases (is_whitespace c)) [
    | inl e ↦
        rw e (
          skipped_lem (c ∷ cs) (m.memnechr_qpl (c ∷ cs) 32 9 10 13) n
            (law.nqpl (c ∷ cs) 32 9 10 13))
    | inr e ↦ rw e (Within-refl (c ∷ cs) n)
  ]

  -- Less text than what is left where a state is entered.
  later_split :
      (start t rest r : List ℕ)
      → Splits start t rest
      → Within rest r
      → Within start r × (length r < length start)
  later_split start t rest r x w =
      let v = Splits-Within start t rest x in
      (Within-trans start rest r v.0 w, omega (arith, v.1, w.shorter))

  on_string-Advances :
      (start t rest : List ℕ) (k : Kind) (s : Str)
      → Splits start t rest
      → StrEnds m law rest s
      → (k ≡ Kind.lit_str) ⊎ (k ≡ Kind.ident IdentKind.user_escaped)
      → Advances start (on_string k s)
  on_string-Advances start t rest k (Str.closed bytes r) x h (inl e) =
      rw e (tt, inr (later_split start t rest r x h))
  on_string-Advances start t rest k (Str.closed bytes r) x h (inr e) =
      rw e (tt, inr (later_split start t rest r x h))
  on_string-Advances start t rest k (Str.broken d r) x h (inl e) =
      rw e (tt, inr (later_split start t rest r x h))
  on_string-Advances start t rest k (Str.broken d r) x h (inr e) =
      rw e (tt, inr (later_split start t rest r x h))
  on_string-Advances start t rest k Str.overrun x h known = absurd h

  on_lines-Advances :
      (start t rest : List ℕ) (r : Option (List ℕ))
      → Splits start t rest
      → Stops rest r
      → Advances start (on_lines start r)
  on_lines-Advances start t rest none x h = h
  on_lines-Advances start t rest (some r) x h = (tt, inr (later_split start t rest r x h))

  -- What the first state does with less text.
  abbrev Continues : List ℕ → (List ℕ → Lexeme) → Type 0
  Continues start more =
      (r : List ℕ) → Within start r → length r < length start → Advances r (more r)

  on_comment-Advances :
      (start t rest : List ℕ) (more : List ℕ → Lexeme) (r : Option (List ℕ))
      → Splits start t rest
      → Stops rest r
      → Continues start more
      → Advances start (on_comment more r)
  on_comment-Advances start t rest more none x h ih = h
  on_comment-Advances start t rest more (some r) x h ih =
      let v = later_split start t rest r x h in Advances-later start r (more r) v.0 (ih r v.0 v.1)

  on_state-Advances :
      (start t rest : List ℕ) (more : List ℕ → Lexeme) (s : State) (k : Kind)
      → Splits start t rest
      → Known s k t
      → is_mark_state s ≡ false
      → IsClean start
      → Continues start more
      → Advances start (on_state m more start s k rest)
  on_state-Advances start t rest more State.line_comment k x h e clean ih =
      on_comment-Advances start t rest more (eat_until_newline m 2 rest) x
        (eat_until_newline-Stops m law rest (x.ends)
          (IsClean-Within start rest clean (Splits-Within start t rest x).0))
        ih
  on_state-Advances start t rest more State.ident k x (i, same, ne) e clean ih = rw same (
      on_ident-Advances start (t ++ (name_from rest).0) (name_from rest).1 i
        (name_split start t rest x))
  on_state-Advances start t rest more State.str k x h e clean ih =
      on_string-Advances start t rest k (str m (suc (length rest)) [] rest) x
        (str-StrEnds m law (suc (length rest)) [] rest (x.ends) (omega arith)) h
  on_state-Advances start t rest more State.int_zero k x h e clean ih =
      rw (slice_lem start t rest x, h)
        (on_number-Advances start (int_zero (48 ∷ []) rest) (int_zero_lem start rest (rw h at x)))
  on_state-Advances start t rest more State.int_dec k x (c, digit, same) e clean ih =
      rw (slice_lem start t rest x, same)
        (on_number-Advances start (int_dec (c ∷ []) rest)
          (int_dec_lem start (c ∷ []) rest (rw same at x) (digit, tt)))
  on_state-Advances start t rest more State.float_dot2 k x (c, digit, same) e clean ih =
      rw (slice_lem start t rest x, same)
        (on_number-Advances start (float_dot2 (46 ∷ c ∷ []) rest) (
          float_dot2_lem start (46 ∷ c ∷ []) rest (rw same at x)
            ([], c ∷ [], inl refl, (digit, tt), refl)))
  on_state-Advances start t rest more State.s0 k x h e clean ih = absurd cc
  on_state-Advances start t rest more State.minus k x h e clean ih = absurd cc
  on_state-Advances start t rest more State.minus_pipe k x h e clean ih = absurd cc
  on_state-Advances start t rest more State.plus k x h e clean ih = absurd cc
  on_state-Advances start t rest more State.plus_pipe k x h e clean ih = absurd cc
  on_state-Advances start t rest more State.star k x h e clean ih = absurd cc
  on_state-Advances start t rest more State.star_pipe k x h e clean ih = absurd cc
  on_state-Advances start t rest more State.star_star k x h e clean ih = absurd cc
  on_state-Advances start t rest more State.slash k x h e clean ih = absurd cc
  on_state-Advances start t rest more State.percent k x h e clean ih = absurd cc
  on_state-Advances start t rest more State.caret k x h e clean ih = absurd cc
  on_state-Advances start t rest more State.amp k x h e clean ih = absurd cc
  on_state-Advances start t rest more State.pipe k x h e clean ih = absurd cc
  on_state-Advances start t rest more State.bang k x h e clean ih = absurd cc
  on_state-Advances start t rest more State.tilde k x h e clean ih = absurd cc
  on_state-Advances start t rest more State.eq k x h e clean ih = absurd cc
  on_state-Advances start t rest more State.hash k x h e clean ih = absurd cc
  on_state-Advances start t rest more State.at k x h e clean ih = absurd cc
  on_state-Advances start t rest more State.dollar k x h e clean ih = absurd cc
  on_state-Advances start t rest more State.lt k x h e clean ih = absurd cc
  on_state-Advances start t rest more State.lt_lt k x h e clean ih = absurd cc
  on_state-Advances start t rest more State.lt_lt_pipe k x h e clean ih = absurd cc
  on_state-Advances start t rest more State.lt_lt_percent k x h e clean ih = absurd cc
  on_state-Advances start t rest more State.gt k x h e clean ih = absurd cc
  on_state-Advances start t rest more State.gt_gt k x h e clean ih = absurd cc
  on_state-Advances start t rest more State.gt_gt_pipe k x h e clean ih = absurd cc
  on_state-Advances start t rest more State.gt_gt_percent k x h e clean ih = absurd cc
  on_state-Advances start t rest more State.amp_amp k x h e clean ih = absurd cc
  on_state-Advances start t rest more State.pipe_pipe k x h e clean ih = absurd cc
  on_state-Advances start t rest more State.dot k x h e clean ih = absurd cc
  on_state-Advances start t rest more State.dot_dot k x h e clean ih = absurd cc
  on_state-Advances start t rest more State.underscore k x h e clean ih = absurd cc
  on_state-Advances start t rest more State.backslash k x h e clean ih = absurd cc
  on_state-Advances start t rest more State.escape_str k x h e clean ih = absurd h
  on_state-Advances start t rest more State.int_bin k x h e clean ih = absurd h
  on_state-Advances start t rest more State.int_oct k x h e clean ih = absurd h
  on_state-Advances start t rest more State.int_hex k x h e clean ih = absurd h
  on_state-Advances start t rest more State.float_dot1 k x h e clean ih = absurd h
  on_state-Advances start t rest more State.float_exp1 k x h e clean ih = absurd h
  on_state-Advances start t rest more State.float_exp2 k x h e clean ih = absurd h

  after_marks-Advances :
      (start : List ℕ) (more : List ℕ → Lexeme) (l : Lexed)
      → HandsOver start l
      → IsFinished l
      → IsClean start
      → Continues start more
      → Advances start (after_marks m more start l)
  after_marks-Advances start more (Lexed.done k rest) (inl e) end clean ih = (tt, inl e)
  after_marks-Advances start more (Lexed.done k rest) (inr (t, x)) end clean ih =
      (tt, inr (Splits-Within start t rest x))
  after_marks-Advances start more (Lexed.rejected b rest) (t, x) end clean ih =
      (tt, inr (Splits-Within start t rest x))
  after_marks-Advances start more (Lexed.goes_on s k rest) (t, x, known, e) end clean ih =
      on_state-Advances start t rest more s k x known e clean ih
  after_marks-Advances start more (Lexed.goes_on_line rest) (t, x) end clean ih =
      on_lines-Advances start t rest (eat_until_newline m 2 rest) x (
        eat_until_newline-Stops m law rest (x.ends)
          (IsClean-Within start rest clean (Splits-Within start t rest x).0))
  after_marks-Advances start more Lexed.overrun h end clean ih = absurd end

  -- On a text that ends with the NUL and has no stray carriage return, with more fuel than bytes,
  -- `next` returns a token: the end of the text, or one that leaves less of the text, with its end.
  -- The symbol of a number is a literal of the grammar.
  pub next-Advances :
      (fuel : ℕ) (cs : List ℕ)
      → EndsNul cs
      → IsClean cs
      → length cs < fuel
      → Advances cs (next m fuel cs)
  unfolding next
  next-Advances zero cs n clean lt = absurd (omega arith)
  next-Advances (suc fuel) cs n clean lt =
      let start = skip_blanks m cs in
      let w = skip_blanks-Within cs n in
      let here = IsClean-Within cs start clean w in
      Advances-later cs start (after_marks m (λ r. next m fuel r) start (lex start)) w (
        after_marks-Advances start (λ r. next m fuel r) (lex start) (lex-HandsOver start (w.ends))
          (lex-IsFinished start (EndsNul-HasNul start (w.ends))) here
          (λ r v less.
            next-Advances fuel r (v.ends) (IsClean-Within start r here v)
              (omega (arith, w.shorter))))
