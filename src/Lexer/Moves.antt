-- ===== src/Lexer/Moves.antt =====
-- src/frontend/lexer.rs: the states of `Lexer::next`, and what one can do with a byte.
use vif.Prelude.{ℕ, List, [], ◌∷◌, ◌==◌, if◌then◌else◌}
use vif.Lexer.Token.{Punct, Kind}

pub data State : Type 0 where
  s0 minus minus_pipe plus plus_pipe star star_pipe star_star : State
  slash percent caret amp pipe bang tilde eq : State
  hash at dollar lt lt_lt lt_lt_pipe lt_lt_percent gt : State
  gt_gt gt_gt_pipe gt_gt_percent amp_amp pipe_pipe dot dot_dot underscore : State
  backslash line_comment ident str escape_str int_zero int_bin int_oct : State
  int_hex int_dec float_dot1 float_dot2 float_exp1 float_exp2 : State

pub data Move : Type 0 where
  -- `kind = k; break 'lexer`
  finish : Kind → Move
  -- `kind = k; break 'state s`
  goto : Kind → State → Move
  -- `break 'state s`
  enter : State → Move
  -- `self.offset -= 1; break 'lexer`, and the same with a new kind
  unread : Move
  unread_as : Kind → Move
  -- The diagnostic on a byte, and an invalid token; the end of the text is not passed.
  unexpected : ℕ → Move
  -- The rest of a directive, and of a multi-line string, is read at once.
  directive : Move
  line_str : Move
  -- A state of the other literals, of names or of comments.
  elsewhere : Move

-- `match` on a byte: the first entry of the byte, or the default.
abbrev pub on : ℕ → List (ℕ × Move) → Move → Move
on c [] default = default
on c ((b, m) ∷ table) default = if c == b then m else on c table default

abbrev pub mark : ℕ → Punct → ℕ × Move
mark b p = (b, Move.finish (Kind.punct p))

abbrev pub mark_to : ℕ → Punct → State → ℕ × Move
mark_to b p s = (b, Move.goto (Kind.punct p) s)
