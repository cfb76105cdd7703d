-- ===== src/Lexer/Marks.antt =====
-- src/frontend/lexer.rs: the states of `Lexer::next` after a first byte of arithmetic, logic or a
-- name.
use vif.Prelude.{ℕ, List, [], ◌∷◌, ◌==◌, if◌then◌else◌}
use vif.Lexer.Chars.{is_ident_start}
use vif.Lexer.Token.{Punct, Kind, IdentKind}
use vif.Lexer.Moves.{State, Move, on, mark, mark_to}

abbrev pub minus_table : List (ℕ × Move)
minus_table = mark 61 Punct.minus_eq ∷ mark_to 124 Punct.minus_pipe State.minus_pipe ∷ []

abbrev pub on_minus : ℕ → Move
on_minus c = on c minus_table Move.unread

abbrev pub minus_pipe_table : List (ℕ × Move)
minus_pipe_table = mark 61 Punct.minus_pipe_eq ∷ []

abbrev pub on_minus_pipe : ℕ → Move
on_minus_pipe c = on c minus_pipe_table Move.unread

abbrev pub plus_table : List (ℕ × Move)
plus_table = mark 61 Punct.plus_eq ∷ mark_to 124 Punct.plus_pipe State.plus_pipe ∷ []

abbrev pub on_plus : ℕ → Move
on_plus c = on c plus_table Move.unread

abbrev pub plus_pipe_table : List (ℕ × Move)
plus_pipe_table = mark 61 Punct.plus_pipe_eq ∷ []

abbrev pub on_plus_pipe : ℕ → Move
on_plus_pipe c = on c plus_pipe_table Move.unread

abbrev pub star_table : List (ℕ × Move)
star_table =
    mark_to 42 Punct.star_star State.star_star ∷ mark_to 124 Punct.star_pipe State.star_pipe ∷ []

abbrev pub on_star : ℕ → Move
on_star c = on c star_table Move.unread

abbrev pub star_pipe_table : List (ℕ × Move)
star_pipe_table = mark 61 Punct.star_pipe_eq ∷ []

abbrev pub on_star_pipe : ℕ → Move
on_star_pipe c = on c star_pipe_table Move.unread

-- `StarStar` reads a byte and gives it back.
abbrev pub on_star_star : ℕ → Move
on_star_star c = Move.unread

abbrev pub slash_table : List (ℕ × Move)
slash_table = mark 61 Punct.slash_eq ∷ (47, Move.enter State.line_comment) ∷ []

abbrev pub on_slash : ℕ → Move
on_slash c = on c slash_table Move.unread

abbrev pub percent_table : List (ℕ × Move)
percent_table = mark 61 Punct.percent_eq ∷ []

abbrev pub on_percent : ℕ → Move
on_percent c = on c percent_table Move.unread

abbrev pub caret_table : List (ℕ × Move)
caret_table = mark 61 Punct.caret_eq ∷ []

abbrev pub on_caret : ℕ → Move
on_caret c = on c caret_table Move.unread

abbrev pub amp_table : List (ℕ × Move)
amp_table = mark 61 Punct.amp_eq ∷ mark_to 38 Punct.amp_amp State.amp_amp ∷ []

abbrev pub on_amp : ℕ → Move
on_amp c = on c amp_table Move.unread

abbrev pub amp_amp_table : List (ℕ × Move)
amp_amp_table = mark 61 Punct.amp_amp_eq ∷ []

abbrev pub on_amp_amp : ℕ → Move
on_amp_amp c = on c amp_amp_table Move.unread

abbrev pub pipe_table : List (ℕ × Move)
pipe_table = mark 61 Punct.pipe_eq ∷ mark_to 124 Punct.pipe_pipe State.pipe_pipe ∷ []

abbrev pub on_pipe : ℕ → Move
on_pipe c = on c pipe_table Move.unread

abbrev pub pipe_pipe_table : List (ℕ × Move)
pipe_pipe_table = mark 61 Punct.pipe_pipe_eq ∷ []

abbrev pub on_pipe_pipe : ℕ → Move
on_pipe_pipe c = on c pipe_pipe_table Move.unread

abbrev pub bang_table : List (ℕ × Move)
bang_table = mark 61 Punct.bang_eq ∷ []

abbrev pub on_bang : ℕ → Move
on_bang c = on c bang_table Move.unread

abbrev pub tilde_table : List (ℕ × Move)
tilde_table = mark 61 Punct.tilde_eq ∷ []

abbrev pub on_tilde : ℕ → Move
on_tilde c = on c tilde_table Move.unread

abbrev pub eq_table : List (ℕ × Move)
eq_table = mark 61 Punct.eq_eq ∷ mark 62 Punct.fat_arrow ∷ []

abbrev pub on_eq : ℕ → Move
on_eq c = on c eq_table Move.unread

abbrev pub on_hash : ℕ → Move
on_hash c = if is_ident_start c then Move.directive else Move.unread

abbrev pub on_at : ℕ → Move
on_at c =
    if is_ident_start c
    then Move.goto (Kind.ident IdentKind.builtin) State.ident
    else if c == 34
    then Move.goto (Kind.ident IdentKind.user_escaped) State.str
    else Move.unexpected c

abbrev pub on_dollar : ℕ → Move
on_dollar c =
    if is_ident_start c
    then Move.goto (Kind.ident IdentKind.user_comptime) State.ident
    else Move.unexpected c
