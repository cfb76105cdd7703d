-- ===== src/Lexer/Entered.antt =====
-- The moves of every state for marks, and the NUL.
use vif.Prelude.{ℕ, Bool, true, false, ◌≡◌, refl}
use vif.Lexer.Chars.{is_ident_start, is_digit, char_table}
use vif.Lexer.Token.{is_eof}
use vif.Lexer.Moves.{State, Move}
use vif.Lexer.States.{transition}
use vif.Lexer.Spelling.{is_mark_state}
use vif.Lexer.Entering.{KnownMove}
use vif.Lexer.Known.{
  known-minus, known-minus_pipe, known-plus, known-plus_pipe, known-star, known-star_pipe,
  known-slash, known-percent, known-caret, known-amp, known-pipe, known-bang, known-tilde, known-eq,
  known-lt, known-lt_lt, known-lt_lt_pipe, known-lt_lt_percent, known-gt, known-gt_gt,
  known-gt_gt_pipe, known-gt_gt_percent, known-amp_amp, known-pipe_pipe, known-dot_dot, known-dot,
  known-s0, known-hash, known-underscore, known-backslash, known-at, known-dollar, known-star_star,
}

-- Every move of every state for marks.
pub transition-KnownMove :
    (s : State) (c : ℕ) → is_mark_state s ≡ true → KnownMove s c (transition s c)
transition-KnownMove State.s0 c h = known-s0 c
transition-KnownMove State.minus c h = known-minus c
transition-KnownMove State.minus_pipe c h = known-minus_pipe c
transition-KnownMove State.plus c h = known-plus c
transition-KnownMove State.plus_pipe c h = known-plus_pipe c
transition-KnownMove State.star c h = known-star c
transition-KnownMove State.star_pipe c h = known-star_pipe c
transition-KnownMove State.star_star c h = known-star_star c
transition-KnownMove State.slash c h = known-slash c
transition-KnownMove State.percent c h = known-percent c
transition-KnownMove State.caret c h = known-caret c
transition-KnownMove State.amp c h = known-amp c
transition-KnownMove State.pipe c h = known-pipe c
transition-KnownMove State.bang c h = known-bang c
transition-KnownMove State.tilde c h = known-tilde c
transition-KnownMove State.eq c h = known-eq c
transition-KnownMove State.hash c h = known-hash c
transition-KnownMove State.at c h = known-at c
transition-KnownMove State.dollar c h = known-dollar c
transition-KnownMove State.lt c h = known-lt c
transition-KnownMove State.lt_lt c h = known-lt_lt c
transition-KnownMove State.lt_lt_pipe c h = known-lt_lt_pipe c
transition-KnownMove State.lt_lt_percent c h = known-lt_lt_percent c
transition-KnownMove State.gt c h = known-gt c
transition-KnownMove State.gt_gt c h = known-gt_gt c
transition-KnownMove State.gt_gt_pipe c h = known-gt_gt_pipe c
transition-KnownMove State.gt_gt_percent c h = known-gt_gt_percent c
transition-KnownMove State.amp_amp c h = known-amp_amp c
transition-KnownMove State.pipe_pipe c h = known-pipe_pipe c
transition-KnownMove State.dot c h = known-dot c
transition-KnownMove State.dot_dot c h = known-dot_dot c
transition-KnownMove State.underscore c h = known-underscore c
transition-KnownMove State.backslash c h = known-backslash c
transition-KnownMove State.line_comment c h = absurd cc
transition-KnownMove State.ident c h = absurd cc
transition-KnownMove State.str c h = absurd cc
transition-KnownMove State.escape_str c h = absurd cc
transition-KnownMove State.int_zero c h = absurd cc
transition-KnownMove State.int_bin c h = absurd cc
transition-KnownMove State.int_oct c h = absurd cc
transition-KnownMove State.int_hex c h = absurd cc
transition-KnownMove State.int_dec c h = absurd cc
transition-KnownMove State.float_dot1 c h = absurd cc
transition-KnownMove State.float_dot2 c h = absurd cc
transition-KnownMove State.float_exp1 c h = absurd cc
transition-KnownMove State.float_exp2 c h = absurd cc

-- The NUL is not read, but for the end of the text.
abbrev pub leaves_nul : Move → Bool
leaves_nul (Move.finish k) = is_eof k
leaves_nul (Move.goto k s) = false
leaves_nul (Move.enter s) = false
leaves_nul Move.line_str = false
leaves_nul _ = true

pub leaves_nul-transition : (s : State) → leaves_nul (transition s 0) ≡ true
unfolding transition char_table is_ident_start is_digit
leaves_nul-transition State.s0 = refl
leaves_nul-transition State.minus = refl
leaves_nul-transition State.minus_pipe = refl
leaves_nul-transition State.plus = refl
leaves_nul-transition State.plus_pipe = refl
leaves_nul-transition State.star = refl
leaves_nul-transition State.star_pipe = refl
leaves_nul-transition State.star_star = refl
leaves_nul-transition State.slash = refl
leaves_nul-transition State.percent = refl
leaves_nul-transition State.caret = refl
leaves_nul-transition State.amp = refl
leaves_nul-transition State.pipe = refl
leaves_nul-transition State.bang = refl
leaves_nul-transition State.tilde = refl
leaves_nul-transition State.eq = refl
leaves_nul-transition State.hash = refl
leaves_nul-transition State.at = refl
leaves_nul-transition State.dollar = refl
leaves_nul-transition State.lt = refl
leaves_nul-transition State.lt_lt = refl
leaves_nul-transition State.lt_lt_pipe = refl
leaves_nul-transition State.lt_lt_percent = refl
leaves_nul-transition State.gt = refl
leaves_nul-transition State.gt_gt = refl
leaves_nul-transition State.gt_gt_pipe = refl
leaves_nul-transition State.gt_gt_percent = refl
leaves_nul-transition State.amp_amp = refl
leaves_nul-transition State.pipe_pipe = refl
leaves_nul-transition State.dot = refl
leaves_nul-transition State.dot_dot = refl
leaves_nul-transition State.underscore = refl
leaves_nul-transition State.backslash = refl
leaves_nul-transition State.line_comment = refl
leaves_nul-transition State.ident = refl
leaves_nul-transition State.str = refl
leaves_nul-transition State.escape_str = refl
leaves_nul-transition State.int_zero = refl
leaves_nul-transition State.int_bin = refl
leaves_nul-transition State.int_oct = refl
leaves_nul-transition State.int_hex = refl
leaves_nul-transition State.int_dec = refl
leaves_nul-transition State.float_dot1 = refl
leaves_nul-transition State.float_dot2 = refl
leaves_nul-transition State.float_exp1 = refl
leaves_nul-transition State.float_exp2 = refl
