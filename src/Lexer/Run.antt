-- ===== src/Lexer/Run.antt =====
-- src/frontend/lexer.rs: a run of `Lexer::next` from a byte that is not white space. The text is
-- the bytes from the offset on, with the NUL at their end.
use vif.Prelude.{ℕ, zero, suc, List, [], ◌∷◌, Bool, true, false, ◌==◌, if◌then◌else◌, ◌&&◌}
use vif.Lexer.Chars.{is_ident_cont}
use vif.Lexer.Token.{Kind}
use vif.Lexer.Strings.{to_end}
use vif.Lexer.Moves.{State, Move}
use vif.Lexer.States.{transition}

pub data Lexed : Type 0 where
  -- The token, and the text after it.
  done : Kind → List ℕ → Lexed
  -- An invalid token, with the byte of the diagnostic.
  rejected : ℕ → List ℕ → Lexed
  -- The token goes on in a state for names, literals or comments, or as a multi-line string.
  goes_on : State → Kind → List ℕ → Lexed
  goes_on_line : List ℕ → Lexed
  -- A read past the end of the buffer, or no fuel.
  overrun : Lexed

abbrev pub bytes_eq : List ℕ → List ℕ → Bool
bytes_eq [] [] = true
bytes_eq (x ∷ xs) (y ∷ ys) = (x == y) && bytes_eq xs ys
bytes_eq _ _ = false

-- `match str` on the name of a directive.
abbrev pub directives : List (List ℕ × Kind)
directives =
    (105 ∷ 110 ∷ 108 ∷ 105 ∷ 110 ∷ 101 ∷ [], Kind.dir_inline)
    ∷ (112 ∷ 97 ∷ 99 ∷ 107 ∷ 101 ∷ 100 ∷ [], Kind.dir_packed)
    ∷ (108 ∷ 105 ∷ 110 ∷ 101 ∷ 97 ∷ 114 ∷ [], Kind.dir_linear)
    ∷ (99 ∷ 97 ∷ 108 ∷ 108 ∷ 99 ∷ 111 ∷ 110 ∷ 118 ∷ [], Kind.dir_callconv)
    ∷ (110 ∷ 111 ∷ 105 ∷ 110 ∷ 108 ∷ 105 ∷ 110 ∷ 101 ∷ [], Kind.dir_noinline)
    ∷ (118 ∷ 111 ∷ 108 ∷ 97 ∷ 116 ∷ 105 ∷ 108 ∷ 101 ∷ [], Kind.dir_volatile)
    ∷ (97 ∷ 100 ∷ 100 ∷ 114 ∷ 115 ∷ 112 ∷ 97 ∷ 99 ∷ 101 ∷ [], Kind.dir_addrspace)
    ∷ []

abbrev pub directive_kind : List (List ℕ × Kind) → List ℕ → Kind
directive_kind [] name = Kind.directive_ident name
directive_kind ((d, k) ∷ table) name = if bytes_eq name d then k else directive_kind table name

-- `while is_ident_cont(self.peek())`: the name before the first other byte, and the text from it.
unfoldable pub name_from : List ℕ → List ℕ × List ℕ
name_from [] = ([], [])
name_from (c ∷ cs) =
    let more = name_from cs in if is_ident_cont c then (c ∷ more.0, more.1) else ([], c ∷ cs)

abbrev pub read_directive : List ℕ × List ℕ → Lexed
read_directive (name, rest) = Lexed.done (directive_kind directives name) rest

-- `if chr == EOF { self.offset = self.len }`
abbrev pub after_unexpected : ℕ → List ℕ → List ℕ
after_unexpected c cs = if c == 0 then to_end (c ∷ cs) else cs

-- One turn of the loop: it ends, or goes on in a state with a kind.
pub data Turn : Type 0 where
  stop : Lexed → Turn
  next : State → Kind → Turn

abbrev pub turn : Move → State → Kind → ℕ → List ℕ → Turn
turn (Move.finish k') s k c cs = Turn.stop (Lexed.done k' cs)
turn (Move.goto k' s') s k c cs = Turn.next s' k'
turn (Move.enter s') s k c cs = Turn.next s' k
turn Move.unread s k c cs = Turn.stop (Lexed.done k (c ∷ cs))
turn (Move.unread_as k') s k c cs = Turn.stop (Lexed.done k' (c ∷ cs))
turn (Move.unexpected byte) s k c cs = Turn.stop (Lexed.rejected byte (after_unexpected c cs))
turn Move.directive s k c cs = Turn.stop (read_directive (name_from (c ∷ cs)))
turn Move.line_str s k c cs = Turn.stop (Lexed.goes_on_line cs)
turn Move.elsewhere s k c cs = Turn.stop (Lexed.goes_on s k (c ∷ cs))

-- What a turn leads to, where `more` is the rest of the run.
abbrev pub settle : (State → Kind → Lexed) → Turn → Lexed
settle more (Turn.stop l) = l
settle more (Turn.next s k) = more s k

-- The loop, on fuel.
unfoldable pub run : ℕ → State → Kind → List ℕ → Lexed
run zero s k cs = Lexed.overrun
run (suc fuel) s k [] = Lexed.overrun
run (suc fuel) s k (c ∷ cs) = settle (λ s' k'. run fuel s' k' cs) (turn (transition s c) s k c cs)

-- No mark has more than four bytes, and each takes one turn; one more enters another state.
unfoldable pub lex : List ℕ → Lexed
lex cs = run 5 State.s0 Kind.eof cs
