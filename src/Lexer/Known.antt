-- ===== src/Lexer/Known.antt =====
-- The moves of each state for marks, by its table.
use vif.Prelude.{ℕ, true, ◌==◌, ◌≡◌, refl, sym, ◌∙◌, arith, inl, inr, Bool-cases}
use vif.Lexer.Chars.{is_ident_start, is_digit, has_class, ident_start, digit}
use vif.Lexer.Classes.{is_digit_lem}
use vif.Lexer.Token.{spelling, IdentKind}
use vif.Lexer.Moves.{State, Move}
use vif.Lexer.Start.{s0_ends, s0_marks, s0_others}
use vif.Lexer.Marks.{
  minus_table, minus_pipe_table, plus_table, plus_pipe_table, star_table, star_pipe_table,
  slash_table, percent_table, caret_table, amp_table, amp_amp_table, pipe_table, pipe_pipe_table,
  bang_table, tilde_table, eq_table,
}
use vif.Lexer.Shifts.{
  lt_table, lt_lt_table, lt_lt_pipe_table, lt_lt_percent_table, gt_table, gt_gt_table,
  gt_gt_pipe_table, gt_gt_percent_table, dot_table, dot_dot_table,
}
use vif.Lexer.States.{transition}
use vif.Lexer.Entering.{KnownMove, on-KnownMove, if-KnownMove, user_plain}

pub known-minus : (c : ℕ) → KnownMove State.minus c (transition State.minus c)
unfolding transition spelling
known-minus c = on-KnownMove State.minus c minus_table Move.unread (tt, (tt, tt)) (omega arith)

pub known-minus_pipe : (c : ℕ) → KnownMove State.minus_pipe c (transition State.minus_pipe c)
unfolding transition spelling
known-minus_pipe c =
    on-KnownMove State.minus_pipe c minus_pipe_table Move.unread (tt, tt) (omega arith)

pub known-plus : (c : ℕ) → KnownMove State.plus c (transition State.plus c)
unfolding transition spelling
known-plus c = on-KnownMove State.plus c plus_table Move.unread (tt, (tt, tt)) (omega arith)

pub known-plus_pipe : (c : ℕ) → KnownMove State.plus_pipe c (transition State.plus_pipe c)
unfolding transition spelling
known-plus_pipe c =
    on-KnownMove State.plus_pipe c plus_pipe_table Move.unread (tt, tt) (omega arith)

pub known-star : (c : ℕ) → KnownMove State.star c (transition State.star c)
unfolding transition spelling
known-star c = on-KnownMove State.star c star_table Move.unread (tt, (tt, tt)) (omega arith)

pub known-star_pipe : (c : ℕ) → KnownMove State.star_pipe c (transition State.star_pipe c)
unfolding transition spelling
known-star_pipe c =
    on-KnownMove State.star_pipe c star_pipe_table Move.unread (tt, tt) (omega arith)

pub known-slash : (c : ℕ) → KnownMove State.slash c (transition State.slash c)
unfolding transition spelling
known-slash c = on-KnownMove State.slash c slash_table Move.unread (tt, (tt, tt)) (omega arith)

pub known-percent : (c : ℕ) → KnownMove State.percent c (transition State.percent c)
unfolding transition spelling
known-percent c = on-KnownMove State.percent c percent_table Move.unread (tt, tt) (omega arith)

pub known-caret : (c : ℕ) → KnownMove State.caret c (transition State.caret c)
unfolding transition spelling
known-caret c = on-KnownMove State.caret c caret_table Move.unread (tt, tt) (omega arith)

pub known-amp : (c : ℕ) → KnownMove State.amp c (transition State.amp c)
unfolding transition spelling
known-amp c = on-KnownMove State.amp c amp_table Move.unread (tt, (tt, tt)) (omega arith)

pub known-pipe : (c : ℕ) → KnownMove State.pipe c (transition State.pipe c)
unfolding transition spelling
known-pipe c = on-KnownMove State.pipe c pipe_table Move.unread (tt, (tt, tt)) (omega arith)

pub known-bang : (c : ℕ) → KnownMove State.bang c (transition State.bang c)
unfolding transition spelling
known-bang c = on-KnownMove State.bang c bang_table Move.unread (tt, tt) (omega arith)

pub known-tilde : (c : ℕ) → KnownMove State.tilde c (transition State.tilde c)
unfolding transition spelling
known-tilde c = on-KnownMove State.tilde c tilde_table Move.unread (tt, tt) (omega arith)

pub known-eq : (c : ℕ) → KnownMove State.eq c (transition State.eq c)
unfolding transition spelling
known-eq c = on-KnownMove State.eq c eq_table Move.unread (tt, (tt, tt)) (omega arith)

pub known-lt : (c : ℕ) → KnownMove State.lt c (transition State.lt c)
unfolding transition spelling
known-lt c = on-KnownMove State.lt c lt_table Move.unread (tt, (tt, tt)) (omega arith)

pub known-lt_lt : (c : ℕ) → KnownMove State.lt_lt c (transition State.lt_lt c)
unfolding transition spelling
known-lt_lt c =
    on-KnownMove State.lt_lt c lt_lt_table Move.unread (tt, (tt, (tt, tt))) (omega arith)

pub known-lt_lt_pipe : (c : ℕ) → KnownMove State.lt_lt_pipe c (transition State.lt_lt_pipe c)
unfolding transition spelling
known-lt_lt_pipe c =
    on-KnownMove State.lt_lt_pipe c lt_lt_pipe_table Move.unread (tt, tt) (omega arith)

pub known-lt_lt_percent :
    (c : ℕ) → KnownMove State.lt_lt_percent c (transition State.lt_lt_percent c)
unfolding transition spelling
known-lt_lt_percent c =
    on-KnownMove State.lt_lt_percent c lt_lt_percent_table Move.unread (tt, tt) (omega arith)

pub known-gt : (c : ℕ) → KnownMove State.gt c (transition State.gt c)
unfolding transition spelling
known-gt c = on-KnownMove State.gt c gt_table Move.unread (tt, (tt, tt)) (omega arith)

pub known-gt_gt : (c : ℕ) → KnownMove State.gt_gt c (transition State.gt_gt c)
unfolding transition spelling
known-gt_gt c =
    on-KnownMove State.gt_gt c gt_gt_table Move.unread (tt, (tt, (tt, tt))) (omega arith)

pub known-gt_gt_pipe : (c : ℕ) → KnownMove State.gt_gt_pipe c (transition State.gt_gt_pipe c)
unfolding transition spelling
known-gt_gt_pipe c =
    on-KnownMove State.gt_gt_pipe c gt_gt_pipe_table Move.unread (tt, tt) (omega arith)

pub known-gt_gt_percent :
    (c : ℕ) → KnownMove State.gt_gt_percent c (transition State.gt_gt_percent c)
unfolding transition spelling
known-gt_gt_percent c =
    on-KnownMove State.gt_gt_percent c gt_gt_percent_table Move.unread (tt, tt) (omega arith)

pub known-amp_amp : (c : ℕ) → KnownMove State.amp_amp c (transition State.amp_amp c)
unfolding transition spelling
known-amp_amp c = on-KnownMove State.amp_amp c amp_amp_table Move.unread (tt, tt) (omega arith)

pub known-pipe_pipe : (c : ℕ) → KnownMove State.pipe_pipe c (transition State.pipe_pipe c)
unfolding transition spelling
known-pipe_pipe c =
    on-KnownMove State.pipe_pipe c pipe_pipe_table Move.unread (tt, tt) (omega arith)

pub known-dot_dot : (c : ℕ) → KnownMove State.dot_dot c (transition State.dot_dot c)
unfolding transition spelling
known-dot_dot c =
    on-KnownMove State.dot_dot c dot_dot_table Move.unread (tt, (tt, tt)) (omega arith)

pub known-dot : (c : ℕ) → KnownMove State.dot c (transition State.dot c)
unfolding transition spelling
known-dot c =
    on-KnownMove State.dot c dot_table _ (tt, (tt, (tt, tt)))
      (if-KnownMove State.dot c (is_digit c) _ _ (λ h. (c, sym (is_digit_lem c) ∙ h, refl))
        (λ h. omega arith))

digit_class : (c : ℕ) → has_class c digit ≡ true → is_digit c ≡ true
unfolding is_digit
digit_class c h = h

pub known-s0 : (c : ℕ) → KnownMove State.s0 c (transition State.s0 c)
unfolding transition spelling
known-s0 c = elim (Bool-cases (c == 0)) [
  | inl e ↦ let same : c ≡ 0 = ground arith in rw same tt
  | inr e ↦
      on-KnownMove State.s0 c s0_ends _
        (tt, (tt, (tt, (tt, (tt, (tt, (tt, (tt, (tt, (tt, (tt, tt)))))))))))
        (on-KnownMove State.s0 c s0_marks _
          (tt, (tt, (tt, (tt, (tt, (tt, (tt, (tt, (tt, (tt, (tt, (tt, tt))))))))))))
          (on-KnownMove State.s0 c s0_others _
            (tt, (tt, (tt, (tt, (tt, (tt, (tt, (inl refl, (refl, tt)))))))))
            (if-KnownMove State.s0 c (has_class c ident_start) _ _ (λ h. user_plain)
              (λ h.
                if-KnownMove State.s0 c (has_class c digit) _ _
                  (λ d. (c, sym (is_digit_lem c) ∙ digit_class c d, refl))
                  (λ d. inr (λ z. ground arith))))))
]

pub known-hash : (c : ℕ) → KnownMove State.hash c (transition State.hash c)
unfolding transition spelling
known-hash c =
    if-KnownMove State.hash c (is_ident_start c) _ _ (λ h. omega arith) (λ h. omega arith)

pub known-underscore : (c : ℕ) → KnownMove State.underscore c (transition State.underscore c)
unfolding transition spelling
known-underscore c =
    if-KnownMove State.underscore c (is_ident_start c) _ _ (λ h. user_plain) (λ h. omega arith)

pub known-backslash : (c : ℕ) → KnownMove State.backslash c (transition State.backslash c)
unfolding transition spelling
known-backslash c = if-KnownMove State.backslash c (c == 92) _ _ (λ h. tt) (λ h. omega arith)

pub known-at : (c : ℕ) → KnownMove State.at c (transition State.at c)
unfolding transition spelling
known-at c =
    if-KnownMove State.at c (is_ident_start c) _ _ (λ h. (IdentKind.builtin, refl, λ e. absurd cc))
      (λ h. if-KnownMove State.at c (c == 34) _ _ (λ q. inr refl) (λ q. inl (omega arith)))

pub known-dollar : (c : ℕ) → KnownMove State.dollar c (transition State.dollar c)
unfolding transition spelling
known-dollar c =
    if-KnownMove State.dollar c (is_ident_start c) _ _
      (λ h. (IdentKind.user_comptime, refl, λ e. absurd cc)) (λ h. inl (omega arith))

pub known-star_star : (c : ℕ) → KnownMove State.star_star c (transition State.star_star c)
unfolding transition spelling
known-star_star c = omega arith
