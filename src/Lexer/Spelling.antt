-- ===== src/Lexer/Spelling.antt =====
-- A mark that the lexer returns is what stands in the text: an invariant of the automaton.
use vif.Prelude.{
  suc, ltb, ℕ, List, [], ◌∷◌, ◌++◌, Bool, true, false, ◌≡◌, sym, inl, inr, Bool-cases, ◌==◌, ==_iff,
  if◌then◌else◌,
}
use mathlib.Core.Path.{subst}
use vif.Lexer.Token.{Punct, spelling, Kind}
use vif.Lexer.Moves.{State, Move, on}

-- The text read before a state for marks.
abbrev pub text : State → List ℕ
text State.minus = spelling Punct.minus
text State.minus_pipe = spelling Punct.minus_pipe
text State.plus = spelling Punct.plus
text State.plus_pipe = spelling Punct.plus_pipe
text State.star = spelling Punct.star
text State.star_pipe = spelling Punct.star_pipe
text State.star_star = spelling Punct.star_star
text State.slash = spelling Punct.slash
text State.percent = spelling Punct.percent
text State.caret = spelling Punct.caret
text State.amp = spelling Punct.amp
text State.pipe = spelling Punct.pipe
text State.bang = spelling Punct.bang
text State.tilde = spelling Punct.tilde
text State.eq = spelling Punct.eq
text State.hash = spelling Punct.hash
text State.lt = spelling Punct.lt
text State.lt_lt = spelling Punct.lt_lt
text State.lt_lt_pipe = spelling Punct.lt_lt_pipe
text State.lt_lt_percent = spelling Punct.lt_lt_percent
text State.gt = spelling Punct.gt
text State.gt_gt = spelling Punct.gt_gt
text State.gt_gt_pipe = spelling Punct.gt_gt_pipe
text State.gt_gt_percent = spelling Punct.gt_gt_percent
text State.amp_amp = spelling Punct.amp_amp
text State.pipe_pipe = spelling Punct.pipe_pipe
text State.dot = spelling Punct.dot
text State.dot_dot = spelling Punct.dot_dot
text State.underscore = spelling Punct.underscore
text State.at = 64 ∷ []
text State.dollar = 36 ∷ []
text State.backslash = 92 ∷ []
text _ = []

-- The kind with which a state for marks is entered.
abbrev pub kind_at : State → Kind
kind_at State.minus = Kind.punct Punct.minus
kind_at State.minus_pipe = Kind.punct Punct.minus_pipe
kind_at State.plus = Kind.punct Punct.plus
kind_at State.plus_pipe = Kind.punct Punct.plus_pipe
kind_at State.star = Kind.punct Punct.star
kind_at State.star_pipe = Kind.punct Punct.star_pipe
kind_at State.star_star = Kind.punct Punct.star_star
kind_at State.slash = Kind.punct Punct.slash
kind_at State.percent = Kind.punct Punct.percent
kind_at State.caret = Kind.punct Punct.caret
kind_at State.amp = Kind.punct Punct.amp
kind_at State.pipe = Kind.punct Punct.pipe
kind_at State.bang = Kind.punct Punct.bang
kind_at State.tilde = Kind.punct Punct.tilde
kind_at State.eq = Kind.punct Punct.eq
kind_at State.hash = Kind.punct Punct.hash
kind_at State.lt = Kind.punct Punct.lt
kind_at State.lt_lt = Kind.punct Punct.lt_lt
kind_at State.lt_lt_pipe = Kind.punct Punct.lt_lt_pipe
kind_at State.lt_lt_percent = Kind.punct Punct.lt_lt_percent
kind_at State.gt = Kind.punct Punct.gt
kind_at State.gt_gt = Kind.punct Punct.gt_gt
kind_at State.gt_gt_pipe = Kind.punct Punct.gt_gt_pipe
kind_at State.gt_gt_percent = Kind.punct Punct.gt_gt_percent
kind_at State.amp_amp = Kind.punct Punct.amp_amp
kind_at State.pipe_pipe = Kind.punct Punct.pipe_pipe
kind_at State.dot = Kind.punct Punct.dot
kind_at State.dot_dot = Kind.punct Punct.dot_dot
kind_at State.underscore = Kind.punct Punct.underscore
kind_at _ = Kind.eof

abbrev pub is_mark_state : State → Bool
is_mark_state State.minus = true
is_mark_state State.minus_pipe = true
is_mark_state State.plus = true
is_mark_state State.plus_pipe = true
is_mark_state State.star = true
is_mark_state State.star_pipe = true
is_mark_state State.star_star = true
is_mark_state State.slash = true
is_mark_state State.percent = true
is_mark_state State.caret = true
is_mark_state State.amp = true
is_mark_state State.pipe = true
is_mark_state State.bang = true
is_mark_state State.tilde = true
is_mark_state State.eq = true
is_mark_state State.hash = true
is_mark_state State.lt = true
is_mark_state State.lt_lt = true
is_mark_state State.lt_lt_pipe = true
is_mark_state State.lt_lt_percent = true
is_mark_state State.gt = true
is_mark_state State.gt_gt = true
is_mark_state State.gt_gt_pipe = true
is_mark_state State.gt_gt_percent = true
is_mark_state State.amp_amp = true
is_mark_state State.pipe_pipe = true
is_mark_state State.dot = true
is_mark_state State.dot_dot = true
is_mark_state State.underscore = true
is_mark_state State.at = true
is_mark_state State.dollar = true
is_mark_state State.backslash = true
is_mark_state State.s0 = true
is_mark_state _ = false

abbrev pub is_star_eq : Punct → Bool
is_star_eq Punct.star_eq = true
is_star_eq _ = false

-- A mark is spelled by the text, and is not `*=`; nothing is said of another token.
abbrev pub Spells : Kind → List ℕ → Type 0
Spells (Kind.punct p) t = (spelling p ≡ t) × (is_star_eq p ≡ false)
Spells _ t = Unit {0}

abbrev pub Enters : Bool → State → Kind → List ℕ → Type 0
Enters true s k t = (k ≡ kind_at s) × (t ≡ text s)
Enters false s k t = Unit {0}

-- The states that the automaton can still enter.
abbrev pub moves_left : State → ℕ
moves_left State.s0 = 4
moves_left State.lt = 3
moves_left State.gt = 3
moves_left State.minus = 2
moves_left State.plus = 2
moves_left State.star = 2
moves_left State.amp = 2
moves_left State.pipe = 2
moves_left State.lt_lt = 2
moves_left State.gt_gt = 2
moves_left State.dot = 2
moves_left State.slash = 2
moves_left State.minus_pipe = 1
moves_left State.plus_pipe = 1
moves_left State.star_pipe = 1
moves_left State.star_star = 1
moves_left State.at = 1
moves_left State.dollar = 1
moves_left State.underscore = 1
moves_left State.lt_lt_pipe = 1
moves_left State.lt_lt_percent = 1
moves_left State.gt_gt_pipe = 1
moves_left State.gt_gt_percent = 1
moves_left State.amp_amp = 1
moves_left State.pipe_pipe = 1
moves_left State.dot_dot = 1
moves_left State.percent = 1
moves_left State.caret = 1
moves_left State.bang = 1
moves_left State.tilde = 1
moves_left State.eq = 1
moves_left State.hash = 1
moves_left State.backslash = 1
moves_left _ = 0

abbrev pub turns : State → ℕ
turns s = suc (moves_left s)

-- A move of a state keeps the invariant.
abbrev pub Keeps : State → ℕ → Move → Type 0
Keeps s c (Move.finish k) = Spells k (text s ++ (c ∷ []))
Keeps s c (Move.goto k s') =
    (Enters (is_mark_state s') s' k (text s ++ (c ∷ []))) × (ltb (turns s') (turns s) ≡ true)
Keeps s c (Move.enter s') =
    (Enters (is_mark_state s') s' (kind_at s) (text s ++ (c ∷ [])))
    × (ltb (turns s') (turns s) ≡ true)
Keeps s c Move.unread = Spells (kind_at s) (text s)
Keeps s c (Move.unread_as k) = Spells k (text s)
Keeps s c _ = Unit {0}

abbrev pub AllKeep : State → List (ℕ × Move) → Type 0
AllKeep s [] = Unit {0}
AllKeep s ((b, m) ∷ table) = Keeps s b m × AllKeep s table

-- The entries of a table are about their own byte.
pub on-Keeps :
    (s : State) (c : ℕ) (table : List (ℕ × Move)) (default : Move)
    → AllKeep s table
    → Keeps s c default
    → Keeps s c (on c table default)
on-Keeps s c [] default all h = h
on-Keeps s c ((b, m) ∷ table) default (first, all) h = elim (Bool-cases (c == b)) [
  | inl e ↦
      subst (λ t. Keeps s c (if t then m else on c table default)) (sym e)
        (subst (λ n. Keeps s n m) (sym ((==_iff c b).0 e)) first)
  | inr e ↦
      subst (λ t. Keeps s c (if t then m else on c table default)) (sym e)
        (on-Keeps s c table default all h)
]

pub if-Keeps :
    (s : State) (c : ℕ) (b : Bool) (x y : Move)
    → Keeps s c x
    → Keeps s c y
    → Keeps s c (if b then x else y)
if-Keeps s c true x y h k = h
if-Keeps s c false x y h k = k
