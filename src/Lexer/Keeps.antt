-- ===== src/Lexer/Keeps.antt =====
-- The moves of each state for marks keep the invariant.
use vif.Prelude.{ℕ, refl, ◌==◌}
use vif.Lexer.Chars.{is_ident_start, is_digit, has_class, ident_start, digit}
use vif.Lexer.Token.{spelling}
use vif.Lexer.Moves.{State, Move}
use vif.Lexer.Start.{s0_ends, s0_marks, s0_others}
use vif.Lexer.Marks.{
  minus_table, minus_pipe_table, plus_table, plus_pipe_table, star_table, star_pipe_table,
  slash_table, percent_table, caret_table, amp_table, amp_amp_table, pipe_table, pipe_pipe_table,
  bang_table, tilde_table, eq_table,
}
use vif.Lexer.Shifts.{
  lt_table, lt_lt_table, lt_lt_pipe_table, lt_lt_percent_table, gt_table, gt_gt_table,
  gt_gt_pipe_table, gt_gt_percent_table, dot_table, dot_dot_table,
}
use vif.Lexer.States.{transition}
use vif.Lexer.Spelling.{Keeps, on-Keeps, if-Keeps}

pub Keeps-minus : (c : ℕ) → Keeps State.minus c (transition State.minus c)
unfolding transition spelling
Keeps-minus c =
    on-Keeps State.minus c minus_table Move.unread ((refl, refl), (((refl, refl), refl), tt))
      (refl, refl)

pub Keeps-minus_pipe : (c : ℕ) → Keeps State.minus_pipe c (transition State.minus_pipe c)
unfolding transition spelling
Keeps-minus_pipe c =
    on-Keeps State.minus_pipe c minus_pipe_table Move.unread ((refl, refl), tt) (refl, refl)

pub Keeps-plus : (c : ℕ) → Keeps State.plus c (transition State.plus c)
unfolding transition spelling
Keeps-plus c =
    on-Keeps State.plus c plus_table Move.unread ((refl, refl), (((refl, refl), refl), tt))
      (refl, refl)

pub Keeps-plus_pipe : (c : ℕ) → Keeps State.plus_pipe c (transition State.plus_pipe c)
unfolding transition spelling
Keeps-plus_pipe c =
    on-Keeps State.plus_pipe c plus_pipe_table Move.unread ((refl, refl), tt) (refl, refl)

pub Keeps-star : (c : ℕ) → Keeps State.star c (transition State.star c)
unfolding transition spelling
Keeps-star c =
    on-Keeps State.star c star_table Move.unread (((refl, refl), refl), (((refl, refl), refl), tt))
      (refl, refl)

pub Keeps-star_pipe : (c : ℕ) → Keeps State.star_pipe c (transition State.star_pipe c)
unfolding transition spelling
Keeps-star_pipe c =
    on-Keeps State.star_pipe c star_pipe_table Move.unread ((refl, refl), tt) (refl, refl)

pub Keeps-slash : (c : ℕ) → Keeps State.slash c (transition State.slash c)
unfolding transition spelling
Keeps-slash c =
    on-Keeps State.slash c slash_table Move.unread ((refl, refl), ((tt, refl), tt)) (refl, refl)

pub Keeps-percent : (c : ℕ) → Keeps State.percent c (transition State.percent c)
unfolding transition spelling
Keeps-percent c = on-Keeps State.percent c percent_table Move.unread ((refl, refl), tt) (refl, refl)

pub Keeps-caret : (c : ℕ) → Keeps State.caret c (transition State.caret c)
unfolding transition spelling
Keeps-caret c = on-Keeps State.caret c caret_table Move.unread ((refl, refl), tt) (refl, refl)

pub Keeps-amp : (c : ℕ) → Keeps State.amp c (transition State.amp c)
unfolding transition spelling
Keeps-amp c =
    on-Keeps State.amp c amp_table Move.unread ((refl, refl), (((refl, refl), refl), tt))
      (refl, refl)

pub Keeps-amp_amp : (c : ℕ) → Keeps State.amp_amp c (transition State.amp_amp c)
unfolding transition spelling
Keeps-amp_amp c = on-Keeps State.amp_amp c amp_amp_table Move.unread ((refl, refl), tt) (refl, refl)

pub Keeps-pipe : (c : ℕ) → Keeps State.pipe c (transition State.pipe c)
unfolding transition spelling
Keeps-pipe c =
    on-Keeps State.pipe c pipe_table Move.unread ((refl, refl), (((refl, refl), refl), tt))
      (refl, refl)

pub Keeps-pipe_pipe : (c : ℕ) → Keeps State.pipe_pipe c (transition State.pipe_pipe c)
unfolding transition spelling
Keeps-pipe_pipe c =
    on-Keeps State.pipe_pipe c pipe_pipe_table Move.unread ((refl, refl), tt) (refl, refl)

pub Keeps-bang : (c : ℕ) → Keeps State.bang c (transition State.bang c)
unfolding transition spelling
Keeps-bang c = on-Keeps State.bang c bang_table Move.unread ((refl, refl), tt) (refl, refl)

pub Keeps-tilde : (c : ℕ) → Keeps State.tilde c (transition State.tilde c)
unfolding transition spelling
Keeps-tilde c = on-Keeps State.tilde c tilde_table Move.unread ((refl, refl), tt) (refl, refl)

pub Keeps-eq : (c : ℕ) → Keeps State.eq c (transition State.eq c)
unfolding transition spelling
Keeps-eq c =
    on-Keeps State.eq c eq_table Move.unread ((refl, refl), ((refl, refl), tt)) (refl, refl)

pub Keeps-lt : (c : ℕ) → Keeps State.lt c (transition State.lt c)
unfolding transition spelling
Keeps-lt c =
    on-Keeps State.lt c lt_table Move.unread ((refl, refl), (((refl, refl), refl), tt)) (refl, refl)

pub Keeps-lt_lt : (c : ℕ) → Keeps State.lt_lt c (transition State.lt_lt c)
unfolding transition spelling
Keeps-lt_lt c =
    on-Keeps State.lt_lt c lt_lt_table Move.unread
      ((refl, refl), (((refl, refl), refl), (((refl, refl), refl), tt))) (refl, refl)

pub Keeps-lt_lt_pipe : (c : ℕ) → Keeps State.lt_lt_pipe c (transition State.lt_lt_pipe c)
unfolding transition spelling
Keeps-lt_lt_pipe c =
    on-Keeps State.lt_lt_pipe c lt_lt_pipe_table Move.unread ((refl, refl), tt) (refl, refl)

pub Keeps-lt_lt_percent : (c : ℕ) → Keeps State.lt_lt_percent c (transition State.lt_lt_percent c)
unfolding transition spelling
Keeps-lt_lt_percent c =
    on-Keeps State.lt_lt_percent c lt_lt_percent_table Move.unread ((refl, refl), tt) (refl, refl)

pub Keeps-gt : (c : ℕ) → Keeps State.gt c (transition State.gt c)
unfolding transition spelling
Keeps-gt c =
    on-Keeps State.gt c gt_table Move.unread ((refl, refl), (((refl, refl), refl), tt)) (refl, refl)

pub Keeps-gt_gt : (c : ℕ) → Keeps State.gt_gt c (transition State.gt_gt c)
unfolding transition spelling
Keeps-gt_gt c =
    on-Keeps State.gt_gt c gt_gt_table Move.unread
      ((refl, refl), (((refl, refl), refl), (((refl, refl), refl), tt))) (refl, refl)

pub Keeps-gt_gt_pipe : (c : ℕ) → Keeps State.gt_gt_pipe c (transition State.gt_gt_pipe c)
unfolding transition spelling
Keeps-gt_gt_pipe c =
    on-Keeps State.gt_gt_pipe c gt_gt_pipe_table Move.unread ((refl, refl), tt) (refl, refl)

pub Keeps-gt_gt_percent : (c : ℕ) → Keeps State.gt_gt_percent c (transition State.gt_gt_percent c)
unfolding transition spelling
Keeps-gt_gt_percent c =
    on-Keeps State.gt_gt_percent c gt_gt_percent_table Move.unread ((refl, refl), tt) (refl, refl)

pub Keeps-dot : (c : ℕ) → Keeps State.dot c (transition State.dot c)
unfolding transition spelling
Keeps-dot c =
    on-Keeps State.dot c dot_table _ (((refl, refl), refl), ((refl, refl), ((refl, refl), tt)))
      (if-Keeps State.dot c (is_digit c) _ _ (tt, refl) (refl, refl))

pub Keeps-dot_dot : (c : ℕ) → Keeps State.dot_dot c (transition State.dot_dot c)
unfolding transition spelling
Keeps-dot_dot c =
    on-Keeps State.dot_dot c dot_dot_table Move.unread ((refl, refl), ((refl, refl), tt))
      (refl, refl)

pub Keeps-s0 : (c : ℕ) → Keeps State.s0 c (transition State.s0 c)
unfolding transition spelling
Keeps-s0 c =
    on-Keeps State.s0 c s0_ends _
      (
        tt,
        (
          (refl, refl),
          (
            (refl, refl),
            (
              (refl, refl),
              (
                (refl, refl),
                (
                  (refl, refl),
                  (
                    (refl, refl),
                    ((refl, refl), ((refl, refl), ((refl, refl), ((refl, refl), tt)))),
                  ),
                ),
              ),
            ),
          ),
        ),
      )
      (on-Keeps State.s0 c s0_marks _
        (
          ((refl, refl), refl),
          (
            ((refl, refl), refl),
            (
              ((refl, refl), refl),
              (
                ((refl, refl), refl),
                (
                  ((refl, refl), refl),
                  (
                    ((refl, refl), refl),
                    (
                      ((refl, refl), refl),
                      (
                        ((refl, refl), refl),
                        (
                          ((refl, refl), refl),
                          (
                            ((refl, refl), refl),
                            (((refl, refl), refl), (((refl, refl), refl), tt)),
                          ),
                        ),
                      ),
                    ),
                  ),
                ),
              ),
            ),
          ),
        )
        (on-Keeps State.s0 c s0_others _
          (
            ((refl, refl), refl),
            (
              ((refl, refl), refl),
              (
                ((refl, refl), refl),
                (
                  ((refl, refl), refl),
                  (
                    ((refl, refl), refl),
                    (((refl, refl), refl), (((refl, refl), refl), ((tt, refl), ((tt, refl), tt)))),
                  ),
                ),
              ),
            ),
          )
          (if-Keeps State.s0 c (has_class c ident_start) _ _ (tt, refl)
            (if-Keeps State.s0 c (has_class c digit) _ _ (tt, refl) tt))))

pub Keeps-hash : (c : ℕ) → Keeps State.hash c (transition State.hash c)
unfolding transition spelling
Keeps-hash c = if-Keeps State.hash c (is_ident_start c) _ _ tt (refl, refl)

pub Keeps-underscore : (c : ℕ) → Keeps State.underscore c (transition State.underscore c)
unfolding transition spelling
Keeps-underscore c = if-Keeps State.underscore c (is_ident_start c) _ _ (tt, refl) (refl, refl)

pub Keeps-at : (c : ℕ) → Keeps State.at c (transition State.at c)
unfolding transition spelling
Keeps-at c =
    if-Keeps State.at c (is_ident_start c) _ _ (tt, refl)
      (if-Keeps State.at c (c == 34) _ _ (tt, refl) tt)

pub Keeps-dollar : (c : ℕ) → Keeps State.dollar c (transition State.dollar c)
unfolding transition spelling
Keeps-dollar c = if-Keeps State.dollar c (is_ident_start c) _ _ (tt, refl) tt

pub Keeps-backslash : (c : ℕ) → Keeps State.backslash c (transition State.backslash c)
unfolding transition spelling
Keeps-backslash c = if-Keeps State.backslash c (c == 92) _ _ tt (refl, refl)
