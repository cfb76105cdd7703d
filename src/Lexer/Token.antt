-- ===== src/Lexer/Token.antt =====
-- src/frontend/lexer.rs: the tokens, and what stands for them in the text.
use vif.Prelude.{Bool, true, false, ℕ, List, [], ◌∷◌}

-- The punctuation marks of `TokenKind`.
pub data Punct : Type 0 where
  minus plus star slash backslash percent caret amp : Punct
  pipe bang tilde eq question_mark lt gt comma : Punct
  semicolon colon l_paren r_paren l_brace r_brace l_bracket r_bracket : Punct
  hash dot underscore minus_eq minus_pipe plus_eq plus_pipe star_star : Punct
  star_eq star_pipe slash_eq percent_eq lt_eq lt_lt gt_gt gt_eq : Punct
  caret_eq amp_eq pipe_eq amp_amp pipe_pipe eq_eq bang_eq tilde_eq : Punct
  fat_arrow dot_dot dot_star dot_question_mark minus_pipe_eq plus_pipe_eq lt_lt_eq gt_gt_eq : Punct
  lt_lt_pipe gt_gt_pipe lt_lt_percent gt_gt_percent star_pipe_eq amp_amp_eq pipe_pipe_eq
        dot_dot_eq :
      Punct
  ellipsis lt_lt_pipe_eq lt_lt_percent_eq gt_gt_pipe_eq gt_gt_percent_eq : Punct

-- The string of a mark, as bytes.
unfoldable pub spelling : Punct → List ℕ
spelling minus = 45 ∷ []
spelling plus = 43 ∷ []
spelling star = 42 ∷ []
spelling slash = 47 ∷ []
spelling backslash = 92 ∷ []
spelling percent = 37 ∷ []
spelling caret = 94 ∷ []
spelling amp = 38 ∷ []
spelling pipe = 124 ∷ []
spelling bang = 33 ∷ []
spelling tilde = 126 ∷ []
spelling eq = 61 ∷ []
spelling question_mark = 63 ∷ []
spelling lt = 60 ∷ []
spelling gt = 62 ∷ []
spelling comma = 44 ∷ []
spelling semicolon = 59 ∷ []
spelling colon = 58 ∷ []
spelling l_paren = 40 ∷ []
spelling r_paren = 41 ∷ []
spelling l_brace = 123 ∷ []
spelling r_brace = 125 ∷ []
spelling l_bracket = 91 ∷ []
spelling r_bracket = 93 ∷ []
spelling hash = 35 ∷ []
spelling dot = 46 ∷ []
spelling underscore = 95 ∷ []
spelling minus_eq = 45 ∷ 61 ∷ []
spelling minus_pipe = 45 ∷ 124 ∷ []
spelling plus_eq = 43 ∷ 61 ∷ []
spelling plus_pipe = 43 ∷ 124 ∷ []
spelling star_star = 42 ∷ 42 ∷ []
spelling star_eq = 42 ∷ 61 ∷ []
spelling star_pipe = 42 ∷ 124 ∷ []
spelling slash_eq = 47 ∷ 61 ∷ []
spelling percent_eq = 37 ∷ 61 ∷ []
spelling lt_eq = 60 ∷ 61 ∷ []
spelling lt_lt = 60 ∷ 60 ∷ []
spelling gt_gt = 62 ∷ 62 ∷ []
spelling gt_eq = 62 ∷ 61 ∷ []
spelling caret_eq = 94 ∷ 61 ∷ []
spelling amp_eq = 38 ∷ 61 ∷ []
spelling pipe_eq = 124 ∷ 61 ∷ []
spelling amp_amp = 38 ∷ 38 ∷ []
spelling pipe_pipe = 124 ∷ 124 ∷ []
spelling eq_eq = 61 ∷ 61 ∷ []
spelling bang_eq = 33 ∷ 61 ∷ []
spelling tilde_eq = 126 ∷ 61 ∷ []
spelling fat_arrow = 61 ∷ 62 ∷ []
spelling dot_dot = 46 ∷ 46 ∷ []
spelling dot_star = 46 ∷ 42 ∷ []
spelling dot_question_mark = 46 ∷ 63 ∷ []
spelling minus_pipe_eq = 45 ∷ 124 ∷ 61 ∷ []
spelling plus_pipe_eq = 43 ∷ 124 ∷ 61 ∷ []
spelling lt_lt_eq = 60 ∷ 60 ∷ 61 ∷ []
spelling gt_gt_eq = 62 ∷ 62 ∷ 61 ∷ []
spelling lt_lt_pipe = 60 ∷ 60 ∷ 124 ∷ []
spelling gt_gt_pipe = 62 ∷ 62 ∷ 124 ∷ []
spelling lt_lt_percent = 60 ∷ 60 ∷ 37 ∷ []
spelling gt_gt_percent = 62 ∷ 62 ∷ 37 ∷ []
spelling star_pipe_eq = 42 ∷ 124 ∷ 61 ∷ []
spelling amp_amp_eq = 38 ∷ 38 ∷ 61 ∷ []
spelling pipe_pipe_eq = 124 ∷ 124 ∷ 61 ∷ []
spelling dot_dot_eq = 46 ∷ 46 ∷ 61 ∷ []
spelling ellipsis = 46 ∷ 46 ∷ 46 ∷ []
spelling lt_lt_pipe_eq = 60 ∷ 60 ∷ 124 ∷ 61 ∷ []
spelling lt_lt_percent_eq = 60 ∷ 60 ∷ 37 ∷ 61 ∷ []
spelling gt_gt_pipe_eq = 62 ∷ 62 ∷ 124 ∷ 61 ∷ []
spelling gt_gt_percent_eq = 62 ∷ 62 ∷ 37 ∷ 61 ∷ []

-- `IdentKind`
pub data IdentKind : Type 0 where
  user user_escaped user_comptime builtin : IdentKind

-- The part of `TokenKind` that the states for marks and the first state set. A symbol is interned
-- when its token is complete; until then it is the empty one.
pub data Kind : Type 0 where
  punct : Punct → Kind
  ident : IdentKind → Kind
  lit_str : Kind
  dir_inline dir_packed dir_linear dir_callconv dir_noinline dir_volatile dir_addrspace : Kind
  directive_ident : List ℕ → Kind
  invalid eof : Kind

-- The token at the end of the text.
abbrev pub is_eof : Kind → Bool
is_eof Kind.eof = true
is_eof _ = false
