-- ===== src/Lexer/Start.antt =====
-- src/frontend/lexer.rs: the first state of `Lexer::next`, after the white space.
use vif.Prelude.{ℕ, List, [], ◌∷◌, if◌then◌else◌}
use vif.Lexer.Chars.{char_table, ident_start, digit, has_class}
use vif.Lexer.Token.{Punct, Kind, IdentKind}
use vif.Lexer.Moves.{State, Move, on, mark, mark_to}

-- The bytes that are a token, and the end of the text.
abbrev pub s0_ends : List (ℕ × Move)
s0_ends =
    (0, Move.finish Kind.eof)
    ∷ mark 63 Punct.question_mark
    ∷ mark 44 Punct.comma
    ∷ mark 59 Punct.semicolon
    ∷ mark 58 Punct.colon
    ∷ mark 40 Punct.l_paren
    ∷ mark 41 Punct.r_paren
    ∷ mark 123 Punct.l_brace
    ∷ mark 125 Punct.r_brace
    ∷ mark 91 Punct.l_bracket
    ∷ mark 93 Punct.r_bracket
    ∷ []

-- The bytes that a longer mark can start with.
abbrev pub s0_marks : List (ℕ × Move)
s0_marks =
    mark_to 35 Punct.hash State.hash
    ∷ mark_to 45 Punct.minus State.minus
    ∷ mark_to 43 Punct.plus State.plus
    ∷ mark_to 42 Punct.star State.star
    ∷ mark_to 47 Punct.slash State.slash
    ∷ mark_to 37 Punct.percent State.percent
    ∷ mark_to 94 Punct.caret State.caret
    ∷ mark_to 38 Punct.amp State.amp
    ∷ mark_to 124 Punct.pipe State.pipe
    ∷ mark_to 33 Punct.bang State.bang
    ∷ mark_to 126 Punct.tilde State.tilde
    ∷ mark_to 61 Punct.eq State.eq
    ∷ []

-- The other bytes with a meaning of their own.
abbrev pub s0_others : List (ℕ × Move)
s0_others =
    (64, Move.enter State.at)
    ∷ (36, Move.enter State.dollar)
    ∷ mark_to 60 Punct.lt State.lt
    ∷ mark_to 62 Punct.gt State.gt
    ∷ mark_to 46 Punct.dot State.dot
    ∷ mark_to 95 Punct.underscore State.underscore
    ∷ (92, Move.enter State.backslash)
    ∷ (34, Move.goto Kind.lit_str State.str)
    ∷ (48, Move.enter State.int_zero)
    ∷ []

-- The last arm: the class of the byte. The diagnostic is given the class, which the arm calls `chr`.
abbrev pub s0_class : ℕ → Move
s0_class c =
    if has_class c ident_start
    then Move.goto (Kind.ident IdentKind.user) State.ident
    else if has_class c digit
    then Move.enter State.int_dec
    else Move.unexpected (char_table c)

abbrev pub on_s0 : ℕ → Move
on_s0 c = on c s0_ends (on c s0_marks (on c s0_others (s0_class c)))
