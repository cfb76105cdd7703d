-- ===== src/Lexer/States.antt =====
-- src/frontend/lexer.rs: `Lexer::next` as an automaton, the states together.
use vif.Prelude.{ℕ}
use vif.Lexer.Moves.{State, Move}
use vif.Lexer.Start.{on_s0}
use vif.Lexer.Marks.{
  on_minus, on_minus_pipe, on_plus, on_plus_pipe, on_star, on_star_pipe, on_star_star, on_slash,
  on_percent, on_caret, on_amp, on_pipe, on_bang, on_tilde, on_eq, on_hash, on_at, on_dollar,
  on_amp_amp, on_pipe_pipe,
}
use vif.Lexer.Shifts.{
  on_lt, on_lt_lt, on_lt_lt_pipe, on_lt_lt_percent, on_gt, on_gt_gt, on_gt_gt_pipe,
  on_gt_gt_percent, on_dot, on_dot_dot, on_underscore, on_backslash,
}

-- What a state does with the byte that it reads.
unfoldable pub transition : State → ℕ → Move
transition State.s0 c = on_s0 c
transition State.minus c = on_minus c
transition State.minus_pipe c = on_minus_pipe c
transition State.plus c = on_plus c
transition State.plus_pipe c = on_plus_pipe c
transition State.star c = on_star c
transition State.star_pipe c = on_star_pipe c
transition State.star_star c = on_star_star c
transition State.slash c = on_slash c
transition State.percent c = on_percent c
transition State.caret c = on_caret c
transition State.amp c = on_amp c
transition State.pipe c = on_pipe c
transition State.bang c = on_bang c
transition State.tilde c = on_tilde c
transition State.eq c = on_eq c
transition State.hash c = on_hash c
transition State.at c = on_at c
transition State.dollar c = on_dollar c
transition State.lt c = on_lt c
transition State.lt_lt c = on_lt_lt c
transition State.lt_lt_pipe c = on_lt_lt_pipe c
transition State.lt_lt_percent c = on_lt_lt_percent c
transition State.gt c = on_gt c
transition State.gt_gt c = on_gt_gt c
transition State.gt_gt_pipe c = on_gt_gt_pipe c
transition State.gt_gt_percent c = on_gt_gt_percent c
transition State.amp_amp c = on_amp_amp c
transition State.pipe_pipe c = on_pipe_pipe c
transition State.dot c = on_dot c
transition State.dot_dot c = on_dot_dot c
transition State.underscore c = on_underscore c
transition State.backslash c = on_backslash c
transition _ c = Move.elsewhere
