-- ===== src/Lexer/Transition.antt =====
-- The moves of every state: the invariant, the states that end the run, and the NUL.
use vif.Prelude.{ℕ, ◌≡◌, refl, true, false, Bool}
use vif.Lexer.Chars.{is_ident_start, is_digit, char_table}
use vif.Lexer.Token.{spelling}
use vif.Lexer.Moves.{State, Move}
use vif.Lexer.States.{transition}
use vif.Lexer.Spelling.{Keeps, is_mark_state}
use vif.Lexer.Keeps.{
  Keeps-minus, Keeps-minus_pipe, Keeps-plus, Keeps-plus_pipe, Keeps-star, Keeps-star_pipe,
  Keeps-slash, Keeps-percent, Keeps-caret, Keeps-amp, Keeps-amp_amp, Keeps-pipe, Keeps-pipe_pipe,
  Keeps-bang, Keeps-tilde, Keeps-eq, Keeps-lt, Keeps-lt_lt, Keeps-lt_lt_pipe, Keeps-lt_lt_percent,
  Keeps-gt, Keeps-gt_gt, Keeps-gt_gt_pipe, Keeps-gt_gt_percent, Keeps-dot, Keeps-dot_dot, Keeps-s0,
  Keeps-hash, Keeps-underscore, Keeps-at, Keeps-dollar, Keeps-backslash,
}

-- Every move of every state for marks keeps the invariant.
pub transition-Keeps : (s : State) (c : ℕ) → is_mark_state s ≡ true → Keeps s c (transition s c)
unfolding transition spelling
transition-Keeps State.s0 c h = Keeps-s0 c
transition-Keeps State.minus c h = Keeps-minus c
transition-Keeps State.minus_pipe c h = Keeps-minus_pipe c
transition-Keeps State.plus c h = Keeps-plus c
transition-Keeps State.plus_pipe c h = Keeps-plus_pipe c
transition-Keeps State.star c h = Keeps-star c
transition-Keeps State.star_pipe c h = Keeps-star_pipe c
transition-Keeps State.star_star c h = (refl, refl)
transition-Keeps State.slash c h = Keeps-slash c
transition-Keeps State.percent c h = Keeps-percent c
transition-Keeps State.caret c h = Keeps-caret c
transition-Keeps State.amp c h = Keeps-amp c
transition-Keeps State.pipe c h = Keeps-pipe c
transition-Keeps State.bang c h = Keeps-bang c
transition-Keeps State.tilde c h = Keeps-tilde c
transition-Keeps State.eq c h = Keeps-eq c
transition-Keeps State.hash c h = Keeps-hash c
transition-Keeps State.at c h = Keeps-at c
transition-Keeps State.dollar c h = Keeps-dollar c
transition-Keeps State.lt c h = Keeps-lt c
transition-Keeps State.lt_lt c h = Keeps-lt_lt c
transition-Keeps State.lt_lt_pipe c h = Keeps-lt_lt_pipe c
transition-Keeps State.lt_lt_percent c h = Keeps-lt_lt_percent c
transition-Keeps State.gt c h = Keeps-gt c
transition-Keeps State.gt_gt c h = Keeps-gt_gt c
transition-Keeps State.gt_gt_pipe c h = Keeps-gt_gt_pipe c
transition-Keeps State.gt_gt_percent c h = Keeps-gt_gt_percent c
transition-Keeps State.amp_amp c h = Keeps-amp_amp c
transition-Keeps State.pipe_pipe c h = Keeps-pipe_pipe c
transition-Keeps State.dot c h = Keeps-dot c
transition-Keeps State.dot_dot c h = Keeps-dot_dot c
transition-Keeps State.underscore c h = Keeps-underscore c
transition-Keeps State.backslash c h = Keeps-backslash c
transition-Keeps State.line_comment c h = tt
transition-Keeps State.ident c h = tt
transition-Keeps State.str c h = tt
transition-Keeps State.escape_str c h = tt
transition-Keeps State.int_zero c h = tt
transition-Keeps State.int_bin c h = tt
transition-Keeps State.int_oct c h = tt
transition-Keeps State.int_hex c h = tt
transition-Keeps State.int_dec c h = tt
transition-Keeps State.float_dot1 c h = tt
transition-Keeps State.float_dot2 c h = tt
transition-Keeps State.float_exp1 c h = tt
transition-Keeps State.float_exp2 c h = tt

-- The other states end the run.
pub transition-elsewhere :
    (s : State) (c : ℕ) → is_mark_state s ≡ false → transition s c ≡ Move.elsewhere
unfolding transition
transition-elsewhere State.s0 c h = absurd cc
transition-elsewhere State.minus c h = absurd cc
transition-elsewhere State.minus_pipe c h = absurd cc
transition-elsewhere State.plus c h = absurd cc
transition-elsewhere State.plus_pipe c h = absurd cc
transition-elsewhere State.star c h = absurd cc
transition-elsewhere State.star_pipe c h = absurd cc
transition-elsewhere State.star_star c h = absurd cc
transition-elsewhere State.slash c h = absurd cc
transition-elsewhere State.percent c h = absurd cc
transition-elsewhere State.caret c h = absurd cc
transition-elsewhere State.amp c h = absurd cc
transition-elsewhere State.pipe c h = absurd cc
transition-elsewhere State.bang c h = absurd cc
transition-elsewhere State.tilde c h = absurd cc
transition-elsewhere State.eq c h = absurd cc
transition-elsewhere State.hash c h = absurd cc
transition-elsewhere State.at c h = absurd cc
transition-elsewhere State.dollar c h = absurd cc
transition-elsewhere State.lt c h = absurd cc
transition-elsewhere State.lt_lt c h = absurd cc
transition-elsewhere State.lt_lt_pipe c h = absurd cc
transition-elsewhere State.lt_lt_percent c h = absurd cc
transition-elsewhere State.gt c h = absurd cc
transition-elsewhere State.gt_gt c h = absurd cc
transition-elsewhere State.gt_gt_pipe c h = absurd cc
transition-elsewhere State.gt_gt_percent c h = absurd cc
transition-elsewhere State.amp_amp c h = absurd cc
transition-elsewhere State.pipe_pipe c h = absurd cc
transition-elsewhere State.dot c h = absurd cc
transition-elsewhere State.dot_dot c h = absurd cc
transition-elsewhere State.underscore c h = absurd cc
transition-elsewhere State.backslash c h = absurd cc
transition-elsewhere State.line_comment c h = refl
transition-elsewhere State.ident c h = refl
transition-elsewhere State.str c h = refl
transition-elsewhere State.escape_str c h = refl
transition-elsewhere State.int_zero c h = refl
transition-elsewhere State.int_bin c h = refl
transition-elsewhere State.int_oct c h = refl
transition-elsewhere State.int_hex c h = refl
transition-elsewhere State.int_dec c h = refl
transition-elsewhere State.float_dot1 c h = refl
transition-elsewhere State.float_dot2 c h = refl
transition-elsewhere State.float_exp1 c h = refl
transition-elsewhere State.float_exp2 c h = refl

-- The move does not pass the byte.
abbrev pub stops : Move → Bool
stops (Move.goto k s) = false
stops (Move.enter s) = false
stops _ = true

-- The NUL at the end of the text ends the run.
pub stops-transition : (s : State) → stops (transition s 0) ≡ true
unfolding transition char_table is_ident_start is_digit
stops-transition State.s0 = refl
stops-transition State.minus = refl
stops-transition State.minus_pipe = refl
stops-transition State.plus = refl
stops-transition State.plus_pipe = refl
stops-transition State.star = refl
stops-transition State.star_pipe = refl
stops-transition State.star_star = refl
stops-transition State.slash = refl
stops-transition State.percent = refl
stops-transition State.caret = refl
stops-transition State.amp = refl
stops-transition State.pipe = refl
stops-transition State.bang = refl
stops-transition State.tilde = refl
stops-transition State.eq = refl
stops-transition State.hash = refl
stops-transition State.at = refl
stops-transition State.dollar = refl
stops-transition State.lt = refl
stops-transition State.lt_lt = refl
stops-transition State.lt_lt_pipe = refl
stops-transition State.lt_lt_percent = refl
stops-transition State.gt = refl
stops-transition State.gt_gt = refl
stops-transition State.gt_gt_pipe = refl
stops-transition State.gt_gt_percent = refl
stops-transition State.amp_amp = refl
stops-transition State.pipe_pipe = refl
stops-transition State.dot = refl
stops-transition State.dot_dot = refl
stops-transition State.underscore = refl
stops-transition State.backslash = refl
stops-transition State.line_comment = refl
stops-transition State.ident = refl
stops-transition State.str = refl
stops-transition State.escape_str = refl
stops-transition State.int_zero = refl
stops-transition State.int_bin = refl
stops-transition State.int_oct = refl
stops-transition State.int_hex = refl
stops-transition State.int_dec = refl
stops-transition State.float_dot1 = refl
stops-transition State.float_dot2 = refl
stops-transition State.float_exp1 = refl
stops-transition State.float_exp2 = refl
