-- ===== src/Lexer/Shifts.antt =====
-- src/frontend/lexer.rs: the states of `Lexer::next` after `<`, `>`, `.`, `_` and a backslash.
use vif.Prelude.{ℕ, List, [], ◌∷◌, ◌==◌, if◌then◌else◌}
use vif.Lexer.Chars.{is_ident_start, is_digit}
use vif.Lexer.Token.{Punct, Kind, IdentKind}
use vif.Lexer.Moves.{State, Move, on, mark, mark_to}

abbrev pub lt_table : List (ℕ × Move)
lt_table = mark 61 Punct.lt_eq ∷ mark_to 60 Punct.lt_lt State.lt_lt ∷ []

abbrev pub on_lt : ℕ → Move
on_lt c = on c lt_table Move.unread

abbrev pub lt_lt_table : List (ℕ × Move)
lt_lt_table =
    mark 61 Punct.lt_lt_eq
    ∷ mark_to 124 Punct.lt_lt_pipe State.lt_lt_pipe
    ∷ mark_to 37 Punct.lt_lt_percent State.lt_lt_percent
    ∷ []

abbrev pub on_lt_lt : ℕ → Move
on_lt_lt c = on c lt_lt_table Move.unread

abbrev pub lt_lt_pipe_table : List (ℕ × Move)
lt_lt_pipe_table = mark 61 Punct.lt_lt_pipe_eq ∷ []

abbrev pub on_lt_lt_pipe : ℕ → Move
on_lt_lt_pipe c = on c lt_lt_pipe_table Move.unread

abbrev pub lt_lt_percent_table : List (ℕ × Move)
lt_lt_percent_table = mark 61 Punct.lt_lt_percent_eq ∷ []

abbrev pub on_lt_lt_percent : ℕ → Move
on_lt_lt_percent c = on c lt_lt_percent_table Move.unread

abbrev pub gt_table : List (ℕ × Move)
gt_table = mark 61 Punct.gt_eq ∷ mark_to 62 Punct.gt_gt State.gt_gt ∷ []

abbrev pub on_gt : ℕ → Move
on_gt c = on c gt_table Move.unread

abbrev pub gt_gt_table : List (ℕ × Move)
gt_gt_table =
    mark 61 Punct.gt_gt_eq
    ∷ mark_to 124 Punct.gt_gt_pipe State.gt_gt_pipe
    ∷ mark_to 37 Punct.gt_gt_percent State.gt_gt_percent
    ∷ []

abbrev pub on_gt_gt : ℕ → Move
on_gt_gt c = on c gt_gt_table Move.unread

abbrev pub gt_gt_pipe_table : List (ℕ × Move)
gt_gt_pipe_table = mark 61 Punct.gt_gt_pipe_eq ∷ []

abbrev pub on_gt_gt_pipe : ℕ → Move
on_gt_gt_pipe c = on c gt_gt_pipe_table Move.unread

abbrev pub gt_gt_percent_table : List (ℕ × Move)
gt_gt_percent_table = mark 61 Punct.gt_gt_percent_eq ∷ []

abbrev pub on_gt_gt_percent : ℕ → Move
on_gt_gt_percent c = on c gt_gt_percent_table Move.unread

abbrev pub dot_table : List (ℕ × Move)
dot_table =
    mark_to 46 Punct.dot_dot State.dot_dot
    ∷ mark 42 Punct.dot_star
    ∷ mark 63 Punct.dot_question_mark
    ∷ []

abbrev pub on_dot : ℕ → Move
on_dot c = on c dot_table (if is_digit c then Move.enter State.float_dot2 else Move.unread)

abbrev pub on_underscore : ℕ → Move
on_underscore c =
    if is_ident_start c then Move.goto (Kind.ident IdentKind.user) State.ident else Move.unread

abbrev pub dot_dot_table : List (ℕ × Move)
dot_dot_table = mark 61 Punct.dot_dot_eq ∷ mark 46 Punct.ellipsis ∷ []

abbrev pub on_dot_dot : ℕ → Move
on_dot_dot c = on c dot_dot_table Move.unread

abbrev pub on_backslash : ℕ → Move
on_backslash c = if c == 92 then Move.line_str else Move.unread_as (Kind.punct Punct.backslash)
