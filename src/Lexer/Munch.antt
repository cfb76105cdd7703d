-- ===== src/Lexer/Munch.antt =====
-- The spelling of a mark, followed by a byte that does not continue it, is lexed as that mark.
use vif.Prelude.{ℕ, List, ◌∷◌, ◌++◌, false, ◌≡◌, refl, ap, ◌∙◌, ◌==◌, if◌then◌else◌}
use vif.Lexer.Token.{IdentKind, Punct, spelling, Kind}
use vif.Lexer.Moves.{State, Move}
use vif.Lexer.States.{transition}
use vif.Lexer.Marks.{
  minus_table, minus_pipe_table, plus_table, plus_pipe_table, star_table, star_pipe_table,
  slash_table, percent_table, caret_table, amp_table, amp_amp_table, pipe_table, pipe_pipe_table,
  bang_table, tilde_table, eq_table,
}
use vif.Lexer.Shifts.{
  lt_table, lt_lt_table, lt_lt_pipe_table, lt_lt_percent_table, gt_table, gt_gt_table,
  gt_gt_pipe_table, gt_gt_percent_table, dot_table, dot_dot_table,
}
use vif.Lexer.Spelling.{is_star_eq}
use vif.Lexer.Continue.{next_bytes, member, continues, Munches, or_false, settled, table_absent}
use vif.Lexer.Run.{Lexed, run, lex}

munch-minus : Munches Punct.minus
unfolding lex run transition spelling
munch-minus c cs h =
    settled (λ s k. run 3 s k cs) State.minus Punct.minus c cs _
      (table_absent Punct.minus c minus_table Move.unread refl h)

munch-plus : Munches Punct.plus
unfolding lex run transition spelling
munch-plus c cs h =
    settled (λ s k. run 3 s k cs) State.plus Punct.plus c cs _
      (table_absent Punct.plus c plus_table Move.unread refl h)

munch-star : Munches Punct.star
unfolding lex run transition spelling
munch-star c cs h =
    settled (λ s k. run 3 s k cs) State.star Punct.star c cs _
      (table_absent Punct.star c star_table Move.unread refl h)

munch-slash : Munches Punct.slash
unfolding lex run transition spelling
munch-slash c cs h =
    settled (λ s k. run 3 s k cs) State.slash Punct.slash c cs _
      (table_absent Punct.slash c slash_table Move.unread refl h)

munch-percent : Munches Punct.percent
unfolding lex run transition spelling
munch-percent c cs h =
    settled (λ s k. run 3 s k cs) State.percent Punct.percent c cs _
      (table_absent Punct.percent c percent_table Move.unread refl h)

munch-caret : Munches Punct.caret
unfolding lex run transition spelling
munch-caret c cs h =
    settled (λ s k. run 3 s k cs) State.caret Punct.caret c cs _
      (table_absent Punct.caret c caret_table Move.unread refl h)

munch-amp : Munches Punct.amp
unfolding lex run transition spelling
munch-amp c cs h =
    settled (λ s k. run 3 s k cs) State.amp Punct.amp c cs _
      (table_absent Punct.amp c amp_table Move.unread refl h)

munch-pipe : Munches Punct.pipe
unfolding lex run transition spelling
munch-pipe c cs h =
    settled (λ s k. run 3 s k cs) State.pipe Punct.pipe c cs _
      (table_absent Punct.pipe c pipe_table Move.unread refl h)

munch-bang : Munches Punct.bang
unfolding lex run transition spelling
munch-bang c cs h =
    settled (λ s k. run 3 s k cs) State.bang Punct.bang c cs _
      (table_absent Punct.bang c bang_table Move.unread refl h)

munch-tilde : Munches Punct.tilde
unfolding lex run transition spelling
munch-tilde c cs h =
    settled (λ s k. run 3 s k cs) State.tilde Punct.tilde c cs _
      (table_absent Punct.tilde c tilde_table Move.unread refl h)

munch-eq : Munches Punct.eq
unfolding lex run transition spelling
munch-eq c cs h =
    settled (λ s k. run 3 s k cs) State.eq Punct.eq c cs _
      (table_absent Punct.eq c eq_table Move.unread refl h)

munch-lt : Munches Punct.lt
unfolding lex run transition spelling
munch-lt c cs h =
    settled (λ s k. run 3 s k cs) State.lt Punct.lt c cs _
      (table_absent Punct.lt c lt_table Move.unread refl h)

munch-gt : Munches Punct.gt
unfolding lex run transition spelling
munch-gt c cs h =
    settled (λ s k. run 3 s k cs) State.gt Punct.gt c cs _
      (table_absent Punct.gt c gt_table Move.unread refl h)

munch-minus_pipe : Munches Punct.minus_pipe
unfolding lex run transition spelling
munch-minus_pipe c cs h =
    settled (λ s k. run 2 s k cs) State.minus_pipe Punct.minus_pipe c cs _
      (table_absent Punct.minus_pipe c minus_pipe_table Move.unread refl h)

munch-plus_pipe : Munches Punct.plus_pipe
unfolding lex run transition spelling
munch-plus_pipe c cs h =
    settled (λ s k. run 2 s k cs) State.plus_pipe Punct.plus_pipe c cs _
      (table_absent Punct.plus_pipe c plus_pipe_table Move.unread refl h)

munch-star_pipe : Munches Punct.star_pipe
unfolding lex run transition spelling
munch-star_pipe c cs h =
    settled (λ s k. run 2 s k cs) State.star_pipe Punct.star_pipe c cs _
      (table_absent Punct.star_pipe c star_pipe_table Move.unread refl h)

munch-lt_lt : Munches Punct.lt_lt
unfolding lex run transition spelling
munch-lt_lt c cs h =
    settled (λ s k. run 2 s k cs) State.lt_lt Punct.lt_lt c cs _
      (table_absent Punct.lt_lt c lt_lt_table Move.unread refl h)

munch-gt_gt : Munches Punct.gt_gt
unfolding lex run transition spelling
munch-gt_gt c cs h =
    settled (λ s k. run 2 s k cs) State.gt_gt Punct.gt_gt c cs _
      (table_absent Punct.gt_gt c gt_gt_table Move.unread refl h)

munch-amp_amp : Munches Punct.amp_amp
unfolding lex run transition spelling
munch-amp_amp c cs h =
    settled (λ s k. run 2 s k cs) State.amp_amp Punct.amp_amp c cs _
      (table_absent Punct.amp_amp c amp_amp_table Move.unread refl h)

munch-pipe_pipe : Munches Punct.pipe_pipe
unfolding lex run transition spelling
munch-pipe_pipe c cs h =
    settled (λ s k. run 2 s k cs) State.pipe_pipe Punct.pipe_pipe c cs _
      (table_absent Punct.pipe_pipe c pipe_pipe_table Move.unread refl h)

munch-dot_dot : Munches Punct.dot_dot
unfolding lex run transition spelling
munch-dot_dot c cs h =
    settled (λ s k. run 2 s k cs) State.dot_dot Punct.dot_dot c cs _
      (table_absent Punct.dot_dot c dot_dot_table Move.unread refl h)

munch-lt_lt_pipe : Munches Punct.lt_lt_pipe
unfolding lex run transition spelling
munch-lt_lt_pipe c cs h =
    settled (λ s k. run 1 s k cs) State.lt_lt_pipe Punct.lt_lt_pipe c cs _
      (table_absent Punct.lt_lt_pipe c lt_lt_pipe_table Move.unread refl h)

munch-gt_gt_pipe : Munches Punct.gt_gt_pipe
unfolding lex run transition spelling
munch-gt_gt_pipe c cs h =
    settled (λ s k. run 1 s k cs) State.gt_gt_pipe Punct.gt_gt_pipe c cs _
      (table_absent Punct.gt_gt_pipe c gt_gt_pipe_table Move.unread refl h)

munch-lt_lt_percent : Munches Punct.lt_lt_percent
unfolding lex run transition spelling
munch-lt_lt_percent c cs h =
    settled (λ s k. run 1 s k cs) State.lt_lt_percent Punct.lt_lt_percent c cs _
      (table_absent Punct.lt_lt_percent c lt_lt_percent_table Move.unread refl h)

munch-gt_gt_percent : Munches Punct.gt_gt_percent
unfolding lex run transition spelling
munch-gt_gt_percent c cs h =
    settled (λ s k. run 1 s k cs) State.gt_gt_percent Punct.gt_gt_percent c cs _
      (table_absent Punct.gt_gt_percent c gt_gt_percent_table Move.unread refl h)

munch-hash : Munches Punct.hash
unfolding lex run transition spelling
munch-hash c cs h =
    settled (λ s k. run 3 s k cs) State.hash Punct.hash c cs _
      (ap (λ b. if b then Move.directive else Move.unread)
        (or_false (member c (next_bytes Punct.hash)) _ h).1)

munch-underscore : Munches Punct.underscore
unfolding lex run transition spelling
munch-underscore c cs h =
    settled (λ s k. run 3 s k cs) State.underscore Punct.underscore c cs _
      (ap (λ b. if b then Move.goto (Kind.ident IdentKind.user) State.ident else Move.unread)
        (or_false (member c (next_bytes Punct.underscore)) _ h).1)

munch-dot : Munches Punct.dot
unfolding lex run transition spelling
munch-dot c cs h =
    settled (λ s k. run 3 s k cs) State.dot Punct.dot c cs _
      (table_absent Punct.dot c dot_table _ refl h
        ∙ ap (λ b. if b then Move.enter State.float_dot2 else Move.unread)
            (or_false (member c (next_bytes Punct.dot)) _ h).1)

munch-backslash : Munches Punct.backslash
unfolding lex run transition spelling
munch-backslash c cs h =
    rw (or_false (c == 92) false (or_false (member c (next_bytes Punct.backslash)) false h).0).0
      refl

-- Every mark but `*=` is read back from its spelling, when the next byte does not continue it: when
-- the two together start no longer mark, and no number, name, directive, comment or string.
pub lex-spelling :
    (p : Punct) (c : ℕ) (cs : List ℕ)
    → is_star_eq p ≡ false
    → continues p c ≡ false
    → lex (spelling p ++ (c ∷ cs)) ≡ Lexed.done (Kind.punct p) (c ∷ cs)
unfolding lex run transition spelling
lex-spelling Punct.minus c cs star h = munch-minus c cs h
lex-spelling Punct.plus c cs star h = munch-plus c cs h
lex-spelling Punct.star c cs star h = munch-star c cs h
lex-spelling Punct.slash c cs star h = munch-slash c cs h
lex-spelling Punct.backslash c cs star h = munch-backslash c cs h
lex-spelling Punct.percent c cs star h = munch-percent c cs h
lex-spelling Punct.caret c cs star h = munch-caret c cs h
lex-spelling Punct.amp c cs star h = munch-amp c cs h
lex-spelling Punct.pipe c cs star h = munch-pipe c cs h
lex-spelling Punct.bang c cs star h = munch-bang c cs h
lex-spelling Punct.tilde c cs star h = munch-tilde c cs h
lex-spelling Punct.eq c cs star h = munch-eq c cs h
lex-spelling Punct.question_mark c cs star h = refl
lex-spelling Punct.lt c cs star h = munch-lt c cs h
lex-spelling Punct.gt c cs star h = munch-gt c cs h
lex-spelling Punct.comma c cs star h = refl
lex-spelling Punct.semicolon c cs star h = refl
lex-spelling Punct.colon c cs star h = refl
lex-spelling Punct.l_paren c cs star h = refl
lex-spelling Punct.r_paren c cs star h = refl
lex-spelling Punct.l_brace c cs star h = refl
lex-spelling Punct.r_brace c cs star h = refl
lex-spelling Punct.l_bracket c cs star h = refl
lex-spelling Punct.r_bracket c cs star h = refl
lex-spelling Punct.hash c cs star h = munch-hash c cs h
lex-spelling Punct.dot c cs star h = munch-dot c cs h
lex-spelling Punct.underscore c cs star h = munch-underscore c cs h
lex-spelling Punct.minus_eq c cs star h = refl
lex-spelling Punct.minus_pipe c cs star h = munch-minus_pipe c cs h
lex-spelling Punct.plus_eq c cs star h = refl
lex-spelling Punct.plus_pipe c cs star h = munch-plus_pipe c cs h
lex-spelling Punct.star_star c cs star h = refl
lex-spelling Punct.star_eq c cs star h = absurd cc
lex-spelling Punct.star_pipe c cs star h = munch-star_pipe c cs h
lex-spelling Punct.slash_eq c cs star h = refl
lex-spelling Punct.percent_eq c cs star h = refl
lex-spelling Punct.lt_eq c cs star h = refl
lex-spelling Punct.lt_lt c cs star h = munch-lt_lt c cs h
lex-spelling Punct.gt_gt c cs star h = munch-gt_gt c cs h
lex-spelling Punct.gt_eq c cs star h = refl
lex-spelling Punct.caret_eq c cs star h = refl
lex-spelling Punct.amp_eq c cs star h = refl
lex-spelling Punct.pipe_eq c cs star h = refl
lex-spelling Punct.amp_amp c cs star h = munch-amp_amp c cs h
lex-spelling Punct.pipe_pipe c cs star h = munch-pipe_pipe c cs h
lex-spelling Punct.eq_eq c cs star h = refl
lex-spelling Punct.bang_eq c cs star h = refl
lex-spelling Punct.tilde_eq c cs star h = refl
lex-spelling Punct.fat_arrow c cs star h = refl
lex-spelling Punct.dot_dot c cs star h = munch-dot_dot c cs h
lex-spelling Punct.dot_star c cs star h = refl
lex-spelling Punct.dot_question_mark c cs star h = refl
lex-spelling Punct.minus_pipe_eq c cs star h = refl
lex-spelling Punct.plus_pipe_eq c cs star h = refl
lex-spelling Punct.lt_lt_eq c cs star h = refl
lex-spelling Punct.gt_gt_eq c cs star h = refl
lex-spelling Punct.lt_lt_pipe c cs star h = munch-lt_lt_pipe c cs h
lex-spelling Punct.gt_gt_pipe c cs star h = munch-gt_gt_pipe c cs h
lex-spelling Punct.lt_lt_percent c cs star h = munch-lt_lt_percent c cs h
lex-spelling Punct.gt_gt_percent c cs star h = munch-gt_gt_percent c cs h
lex-spelling Punct.star_pipe_eq c cs star h = refl
lex-spelling Punct.amp_amp_eq c cs star h = refl
lex-spelling Punct.pipe_pipe_eq c cs star h = refl
lex-spelling Punct.dot_dot_eq c cs star h = refl
lex-spelling Punct.ellipsis c cs star h = refl
lex-spelling Punct.lt_lt_pipe_eq c cs star h = refl
lex-spelling Punct.lt_lt_percent_eq c cs star h = refl
lex-spelling Punct.gt_gt_pipe_eq c cs star h = refl
lex-spelling Punct.gt_gt_percent_eq c cs star h = refl
