-- ===== src/Lexer/Total.antt =====
-- A run of the lexer ends before the end of the buffer, which ends with a NUL.
use vif.Prelude.{
  ℕ, zero, suc, List, [], ◌∷◌, Bool, true, false, ◌≡◌, refl, sym, arith, inl, inr, ◌⊎◌, ltb, tests,
  ◌≤◌,
}
use mathlib.Core.Path.{subst}
use vif.Lexer.Token.{Kind}
use vif.Lexer.Moves.{State, Move}
use vif.Lexer.States.{transition}
use vif.Lexer.Spelling.{is_mark_state, Keeps, turns}
use vif.Lexer.Transition.{transition-Keeps, transition-elsewhere, stops, stops-transition}
use vif.Lexer.Run.{Lexed, run, lex, turn, settle}

-- The text has a NUL.
abbrev pub HasNul : List ℕ → Type 0
HasNul [] = ⊥
HasNul (c ∷ cs) = (c ≡ 0) ⊎ HasNul cs

-- The run has an end.
abbrev pub IsFinished : Lexed → Type 0
IsFinished Lexed.overrun = ⊥
IsFinished _ = Unit {0}

-- A move to another state takes one from the turns that are left.
abbrev Lowers : State → Move → Type 0
Lowers s (Move.goto k s') = ltb (turns s') (turns s) ≡ true
Lowers s (Move.enter s') = ltb (turns s') (turns s) ≡ true
Lowers s _ = Unit {0}

Keeps-Lowers : (s : State) (c : ℕ) (m : Move) → Keeps s c m → Lowers s m
Keeps-Lowers s c (Move.finish k) h = tt
Keeps-Lowers s c (Move.goto k s') h = h.1
Keeps-Lowers s c (Move.enter s') h = h.1
Keeps-Lowers s c Move.unread h = tt
Keeps-Lowers s c (Move.unread_as k) h = tt
Keeps-Lowers s c (Move.unexpected b) h = tt
Keeps-Lowers s c Move.directive h = tt
Keeps-Lowers s c Move.line_str h = tt
Keeps-Lowers s c Move.elsewhere h = tt

transition-Lowers : (s : State) (c : ℕ) (b : Bool) → is_mark_state s ≡ b → Lowers s (transition s c)
transition-Lowers s c true h = Keeps-Lowers s c (transition s c) (transition-Keeps s c h)
transition-Lowers s c false h = subst (Lowers s) (sym (transition-elsewhere s c h)) tt

abbrev RunFinished : ℕ → Type 0
RunFinished fuel =
    (s : State) (k : Kind) (cs : List ℕ) → HasNul cs → turns s ≤ fuel → IsFinished (run fuel s k cs)

-- A move either ends the run, or leaves the NUL in the text and takes a turn.
turn-IsFinished :
    (fuel : ℕ) (s : State) (k : Kind) (c : ℕ) (cs : List ℕ) (m : Move)
    → RunFinished fuel
    → Lowers s m
    → turns s ≤ suc fuel
    → (stops m ≡ true) ⊎ HasNul cs
    → IsFinished (settle (λ s' k'. run fuel s' k' cs) (turn m s k c cs))
turn-IsFinished fuel s k c cs (Move.finish k') ih low enough nul = tt
turn-IsFinished fuel s k c cs (Move.goto k' s') ih low enough (inl h) = absurd cc
turn-IsFinished fuel s k c cs (Move.goto k' s') ih low enough (inr h) =
    ih s' k' cs h (omega (tests, low))
turn-IsFinished fuel s k c cs (Move.enter s') ih low enough (inl h) = absurd cc
turn-IsFinished fuel s k c cs (Move.enter s') ih low enough (inr h) =
    ih s' k cs h (omega (tests, low))
turn-IsFinished fuel s k c cs Move.unread ih low enough nul = tt
turn-IsFinished fuel s k c cs (Move.unread_as k') ih low enough nul = tt
turn-IsFinished fuel s k c cs (Move.unexpected b) ih low enough nul = tt
turn-IsFinished fuel s k c cs Move.directive ih low enough nul = tt
turn-IsFinished fuel s k c cs Move.line_str ih low enough nul = tt
turn-IsFinished fuel s k c cs Move.elsewhere ih low enough nul = tt

nul_cases :
    (s : State) (c : ℕ) (cs : List ℕ)
    → HasNul (c ∷ cs)
    → (stops (transition s c) ≡ true) ⊎ HasNul cs
nul_cases s c cs (inl e) =
    inl (subst (λ n. stops (transition s n) ≡ true) (sym e) (stops-transition s))
nul_cases s c cs (inr h) = inr h

run-IsFinished : (fuel : ℕ) → RunFinished fuel
unfolding run
run-IsFinished zero s k cs h enough = absurd (omega arith)
run-IsFinished (suc fuel) s k [] h enough = absurd h
run-IsFinished (suc fuel) s k (c ∷ cs) h enough =
    turn-IsFinished fuel s k c cs (transition s c) (run-IsFinished fuel)
      (transition-Lowers s c (is_mark_state s) refl) enough (nul_cases s c cs h)

-- On a text with a NUL, the five turns of `lex` are enough and no byte past the NUL is read.
pub lex-IsFinished : (cs : List ℕ) → HasNul cs → IsFinished (lex cs)
unfolding lex
lex-IsFinished cs h = run-IsFinished 5 State.s0 Kind.eof cs h (omega arith)
