-- ===== src/Lexer/Faithful.antt =====
-- What the lexer returns is in the text, and a text that ends with a NUL is not overrun.
use vif.Prelude.{
  ℕ, zero, suc, List, [], ◌∷◌, ◌++◌, Bool, true, false, ◌≡◌, refl, sym, ap, ◌∙◌, inl, inr,
  Bool-cases,
}
use mathlib.Core.Path.{subst}
use vif.Lexer.Token.{spelling, Kind}
use vif.Lexer.Moves.{State, Move}
use vif.Lexer.States.{transition}
use vif.Lexer.Spelling.{text, kind_at, is_mark_state, is_star_eq, Keeps, Enters, Spells}
use vif.Lexer.Transition.{transition-Keeps, transition-elsewhere}
use vif.Lexer.Run.{directives, directive_kind, bytes_eq, name_from, settle, Lexed, run, lex, turn}

-- What the lexer returns is about its input `cs`.
abbrev pub IsFaithful : List ℕ → Lexed → Type 0
IsFaithful cs (Lexed.done (Kind.punct p) rest) = (spelling p ++ rest ≡ cs) × (is_star_eq p ≡ false)
IsFaithful cs _ = Unit {0}

append_assoc : (xs : List ℕ) (y : ℕ) (ys : List ℕ) → (xs ++ (y ∷ [])) ++ ys ≡ xs ++ (y ∷ ys)
append_assoc [] y ys = refl
append_assoc (x ∷ xs) y ys = ap (λ zs. x ∷ zs) (append_assoc xs y ys)

done-IsFaithful :
    (k : Kind) (t rest cs : List ℕ)
    → Spells k t
    → t ++ rest ≡ cs
    → IsFaithful cs (Lexed.done k rest)
done-IsFaithful (Kind.punct p) t rest cs h e = (ap (λ x. x ++ rest) h.0 ∙ e, h.1)
done-IsFaithful (Kind.ident i) t rest cs h e = tt
done-IsFaithful Kind.lit_str t rest cs h e = tt
done-IsFaithful Kind.dir_inline t rest cs h e = tt
done-IsFaithful Kind.dir_packed t rest cs h e = tt
done-IsFaithful Kind.dir_linear t rest cs h e = tt
done-IsFaithful Kind.dir_callconv t rest cs h e = tt
done-IsFaithful Kind.dir_noinline t rest cs h e = tt
done-IsFaithful Kind.dir_volatile t rest cs h e = tt
done-IsFaithful Kind.dir_addrspace t rest cs h e = tt
done-IsFaithful (Kind.directive_ident d) t rest cs h e = tt
done-IsFaithful Kind.invalid t rest cs h e = tt
done-IsFaithful Kind.eof t rest cs h e = tt

elsewhere-IsFaithful :
    (fuel : ℕ) (s : State) (k : Kind) (cs input : List ℕ)
    → is_mark_state s ≡ false
    → IsFaithful input (run fuel s k cs)
unfolding run
elsewhere-IsFaithful zero s k cs input h = tt
elsewhere-IsFaithful (suc fuel) s k [] input h = tt
elsewhere-IsFaithful (suc fuel) s k (c ∷ cs) input h =
    subst (λ m. IsFaithful input (settle (λ s' k'. run fuel s' k' cs) (turn m s k c cs)))
      (sym (transition-elsewhere s c h)) tt

-- The lemma on a run of `fuel` turns.
abbrev RunFaithful : ℕ → Type 0
RunFaithful fuel =
    (s : State) (cs : List ℕ)
    → is_mark_state s ≡ true
    → IsFaithful (text s ++ cs) (run fuel s (kind_at s) cs)

entered-IsFaithful :
    (fuel : ℕ) (b : Bool) (s : State) (k : Kind) (t cs input : List ℕ)
    → RunFaithful fuel
    → is_mark_state s ≡ b
    → Enters b s k t
    → t ++ cs ≡ input
    → IsFaithful input (run fuel s k cs)
entered-IsFaithful fuel false s k t cs input ih h e same = elsewhere-IsFaithful fuel s k cs input h
entered-IsFaithful fuel true s k t cs input ih h e same =
    subst (λ k'. IsFaithful input (run fuel s k' cs)) (sym e.0)
      (subst (λ i. IsFaithful i (run fuel s (kind_at s) cs)) (ap (λ x. x ++ cs) (sym e.1) ∙ same)
        (ih s cs h))

abbrev AllPlain : List (List ℕ × Kind) → Type 0
AllPlain [] = Unit {0}
AllPlain ((d, k) ∷ table) =
    ((input rest : List ℕ) → IsFaithful input (Lexed.done k rest)) × AllPlain table

directive-IsFaithful :
    (table : List (List ℕ × Kind)) (name input rest : List ℕ)
    → AllPlain table
    → IsFaithful input (Lexed.done (directive_kind table name) rest)
directive-IsFaithful [] name input rest all = tt
directive-IsFaithful ((d, k) ∷ table) name input rest (first, all) =
    elim (Bool-cases (bytes_eq name d)) [
      | inl e ↦ rw e (first input rest)
      | inr e ↦ rw e (directive-IsFaithful table name input rest all)
    ]

plain_directives : AllPlain directives
plain_directives =
    (λ _ _. tt, (λ _ _. tt, (λ _ _. tt, (λ _ _. tt, (λ _ _. tt, (λ _ _. tt, (λ _ _. tt, tt)))))))

turn-IsFaithful :
    (fuel : ℕ) (s : State) (c : ℕ) (cs : List ℕ) (m : Move)
    → RunFaithful fuel
    → Keeps s c m
    → IsFaithful
        (text s ++ (c ∷ cs))
        (settle (λ s' k'. run fuel s' k' cs) (turn m s (kind_at s) c cs))
turn-IsFaithful fuel s c cs (Move.finish k) ih h =
    done-IsFaithful k _ cs _ h (append_assoc (text s) c cs)
turn-IsFaithful fuel s c cs (Move.goto k s') ih h =
    entered-IsFaithful fuel (is_mark_state s') s' k _ cs _ ih refl h.0 (append_assoc (text s) c cs)
turn-IsFaithful fuel s c cs (Move.enter s') ih h =
    entered-IsFaithful fuel (is_mark_state s') s' (kind_at s) _ cs _ ih refl h.0
      (append_assoc (text s) c cs)
turn-IsFaithful fuel s c cs Move.unread ih h = done-IsFaithful (kind_at s) _ (c ∷ cs) _ h refl
turn-IsFaithful fuel s c cs (Move.unread_as k) ih h = done-IsFaithful k _ (c ∷ cs) _ h refl
turn-IsFaithful fuel s c cs (Move.unexpected b) ih h = tt
turn-IsFaithful fuel s c cs Move.directive ih h =
    let name = name_from (c ∷ cs) in
    directive-IsFaithful directives name.0 (text s ++ (c ∷ cs)) name.1 plain_directives
turn-IsFaithful fuel s c cs Move.line_str ih h = tt
turn-IsFaithful fuel s c cs Move.elsewhere ih h = tt

run-IsFaithful : (fuel : ℕ) → RunFaithful fuel
unfolding run
run-IsFaithful zero s cs h = tt
run-IsFaithful (suc fuel) s [] h = tt
run-IsFaithful (suc fuel) s (c ∷ cs) h =
    (turn-IsFaithful fuel s c cs (transition s c) (run-IsFaithful fuel) (transition-Keeps s c h))

-- A mark that the lexer returns is spelled by the bytes that it reads, and the rest of the text
-- follows it; `*=` is never returned.
pub lex_lem : (cs : List ℕ) → IsFaithful cs (lex cs)
unfolding lex
lex_lem cs = run-IsFaithful 5 State.s0 cs refl
