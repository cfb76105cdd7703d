-- ===== src/Lexer/Handover.antt =====
-- What a run of marks leaves to the other states of the lexer.
use vif.Lexer.Strings.{to_end}
use vif.Lexer.Within.{Within-to_end}
use vif.Prelude.{
  take-append-drop, take, drop, ◌-◌, ℕ, zero, suc, ◌<◌, List, [], ◌∷◌, ◌++◌, Bool, true, false,
  ◌==◌, length, length-append, ◌≡◌, ◌≢◌, refl, sym, ap, ◌∙◌, arith, ◌⊎◌, inl, inr, Bool-cases,
}
use mathlib.Core.Path.{subst}
use vif.Lexer.Chars.{is_ident_cont, char_table}
use vif.Lexer.Token.{is_eof, Kind}
use vif.Lexer.Moves.{State, Move}
use vif.Lexer.States.{transition}
use vif.Lexer.Spelling.{text, kind_at, is_mark_state, Enters, Keeps}
use vif.Lexer.Transition.{transition-Keeps, transition-elsewhere}
use vif.Lexer.Run.{Lexed, run, lex, turn, settle, name_from, read_directive, after_unexpected}
use vif.Lexer.Literals.{EndsNul, EndsNul-tail, Splits, append_assoc}
use vif.Lexer.Entering.{Known, KnownMove}
use vif.Lexer.Entered.{transition-KnownMove, leaves_nul, leaves_nul-transition}

-- A run of marks ends with a token, or hands over to a state that it knows; but for the end of the
-- text it reads some bytes.
abbrev pub HandsOver : List ℕ → Lexed → Type 0
HandsOver input (Lexed.done k rest) = (is_eof k ≡ true) ⊎ ((t : List ℕ) × Splits input t rest)
HandsOver input (Lexed.rejected b rest) = (t : List ℕ) × Splits input t rest
HandsOver input (Lexed.goes_on s k rest) =
    (t : List ℕ) × Splits input t rest × Known s k t × (is_mark_state s ≡ false)
HandsOver input (Lexed.goes_on_line rest) = (t : List ℕ) × Splits input t rest
HandsOver input Lexed.overrun = Unit {0}

abbrev RunHandsOver : ℕ → Type 0
RunHandsOver fuel =
    (s : State) (cs input : List ℕ)
    → is_mark_state s ≡ true
    → text s ++ cs ≡ input
    → EndsNul cs
    → HandsOver input (run fuel s (kind_at s) cs)

-- The byte of a move that passes it is no NUL.
read_byte :
    (t : List ℕ) (c : ℕ) (cs input : List ℕ)
    → t ++ (c ∷ cs) ≡ input
    → EndsNul (c ∷ cs)
    → c ≢ 0
    → Splits input (t ++ (c ∷ [])) cs
read_byte t c cs input e n ne = record {
  bytes = append_assoc t (c ∷ []) cs ∙ e;
  ends = EndsNul-tail c cs n ne;
  progress = omega (arith, length-append {0} t (c ∷ []));
}

passes_byte : (s : State) (c : ℕ) (m : Move) → transition s c ≡ m → leaves_nul m ≡ false → c ≢ 0
passes_byte s c m e h z =
    let f : leaves_nul (transition s 0) ≡ leaves_nul m =
      ap leaves_nul (ap (transition s) (sym z) ∙ e) in
    let g = leaves_nul-transition s in cc

-- A state that is not for marks ends the run.
elsewhere-HandsOver :
    (fuel : ℕ) (s : State) (k : Kind) (t cs input : List ℕ)
    → is_mark_state s ≡ false
    → Known s k t
    → Splits input t cs
    → HandsOver input (run fuel s k cs)
unfolding run
elsewhere-HandsOver zero s k t cs input h known x = tt
elsewhere-HandsOver (suc fuel) s k t [] input h known x = tt
elsewhere-HandsOver (suc fuel) s k t (c ∷ cs) input h known x =
    subst (λ m. HandsOver input (settle (λ s' k'. run fuel s' k' cs) (turn m s k c cs)))
      (sym (transition-elsewhere s c h)) (t, x, known, h)

entered-HandsOver :
    (fuel : ℕ) (b : Bool) (s : State) (k : Kind) (t cs input : List ℕ)
    → RunHandsOver fuel
    → is_mark_state s ≡ b
    → Enters b s k t
    → Known s k t
    → Splits input t cs
    → HandsOver input (run fuel s k cs)
entered-HandsOver fuel false s k t cs input ih h e known x =
    elsewhere-HandsOver fuel s k t cs input h known x
entered-HandsOver fuel true s k t cs input ih h e known x =
    subst (λ k'. HandsOver input (run fuel s k' cs)) (sym e.0)
      (ih s cs input h (ap (λ u. u ++ cs) (sym e.1) ∙ x.bytes) (x.ends))

not_cont_nul : is_ident_cont 0 ≡ false
unfolding is_ident_cont char_table
not_cont_nul = refl

cont_not_nul : (c : ℕ) → is_ident_cont c ≡ true → c ≢ 0
cont_not_nul c e z = let f = ap is_ident_cont z in let g = not_cont_nul in cc

pub name_from-EndsNul :
    (cs : List ℕ)
    → ((name_from cs).0 ++ (name_from cs).1 ≡ cs) × (EndsNul cs → EndsNul (name_from cs).1)
unfolding name_from
name_from-EndsNul [] = (refl, λ n. n)
name_from-EndsNul (c ∷ cs) =
    let ih = name_from-EndsNul cs in
    elim (Bool-cases (is_ident_cont c)) [
      | inl e ↦ rw e (ap (λ ds. c ∷ ds) ih.0, λ n. ih.1 (EndsNul-tail c cs n (cont_not_nul c e)))
      | inr e ↦ rw e (refl, λ n. n)
    ]

-- The mark is read, and the rest is as it was before the byte.
unread_split :
    (s : State) (cs input : List ℕ)
    → text s ++ cs ≡ input
    → EndsNul cs
    → 0 < length (text s)
    → Splits input (text s) cs
unread_split s cs input e n h = record { bytes = e; ends = n; progress = h }

directive_split :
    (s : State) (cs input : List ℕ)
    → text s ++ cs ≡ input
    → EndsNul cs
    → 0 < length (text s)
    → HandsOver input (read_directive (name_from cs))
directive_split s cs input e n h =
    let r = name_from cs in
    let x = name_from-EndsNul cs in
    inr (
      text s ++ r.0,
      record {
        bytes = append_assoc (text s) r.0 r.1 ∙ ap (λ ds. text s ++ ds) x.0 ∙ e;
        ends = x.1 n;
        progress = omega (arith, length-append {0} (text s) r.0, h);
      },
    )

-- The rest of the text is passed, up to the NUL.
end_split :
    (s : State) (cs input : List ℕ)
    → text s ++ cs ≡ input
    → EndsNul cs
    → 0 < length (text s)
    → (t : List ℕ) × Splits input t (to_end cs)
end_split s cs input e n h =
    let k = length cs - 1 in
    (
      text s ++ take k cs,
      record {
        bytes =
            append_assoc (text s) (take k cs) (drop k cs)
            ∙ ap (λ ds. text s ++ ds) (take-append-drop k cs)
            ∙ e;
        ends = (Within-to_end cs n).ends;
        progress = omega (arith, length-append {0} (text s) (take k cs), h);
      },
    )

unexpected_split :
    (s : State) (c : ℕ) (cs input : List ℕ)
    → text s ++ (c ∷ cs) ≡ input
    → EndsNul (c ∷ cs)
    → (0 < length (text s)) ⊎ (c ≢ 0)
    → (t : List ℕ) × Splits input t (after_unexpected c cs)
unexpected_split s c cs input e n h = elim (Bool-cases (c == 0)) [
  | inl z ↦
      rw z
        (elim h [ inl p ↦ end_split s (c ∷ cs) input e n p | inr ne ↦ absurd (ne (ground arith)) ])
  | inr z ↦ rw z (text s ++ (c ∷ []), read_byte (text s) c cs input e n (λ same. ground arith))
]

finish_cases : (k : Kind) → (is_eof k ≡ true) ⊎ (is_eof k ≡ false)
finish_cases k = Bool-cases (is_eof k)

turn-HandsOver :
    (fuel : ℕ) (s : State) (c : ℕ) (cs input : List ℕ) (m : Move)
    → RunHandsOver fuel
    → transition s c ≡ m
    → Keeps s c m
    → KnownMove s c m
    → text s ++ (c ∷ cs) ≡ input
    → EndsNul (c ∷ cs)
    → HandsOver input (settle (λ s' k'. run fuel s' k' cs) (turn m s (kind_at s) c cs))
turn-HandsOver fuel s c cs input (Move.finish k) ih at keeps known e n = elim (finish_cases k) [
  | inl eof ↦ inl eof
  | inr more ↦ inr (
    text s ++ (c ∷ []),
    read_byte (text s) c cs input e n (passes_byte s c (Move.finish k) at more),
  )
]
turn-HandsOver fuel s c cs input (Move.goto k s') ih at keeps known e n =
    entered-HandsOver fuel (is_mark_state s') s' k (text s ++ (c ∷ [])) cs input ih refl keeps.0
      known (read_byte (text s) c cs input e n (passes_byte s c (Move.goto k s') at refl))
turn-HandsOver fuel s c cs input (Move.enter s') ih at keeps known e n =
    entered-HandsOver fuel (is_mark_state s') s' (kind_at s) (text s ++ (c ∷ [])) cs input ih refl
      keeps.0 known (read_byte (text s) c cs input e n (passes_byte s c (Move.enter s') at refl))
turn-HandsOver fuel s c cs input Move.unread ih at keeps known e n =
    inr (text s, unread_split s (c ∷ cs) input e n known)
turn-HandsOver fuel s c cs input (Move.unread_as k) ih at keeps known e n =
    inr (text s, unread_split s (c ∷ cs) input e n known)
turn-HandsOver fuel s c cs input (Move.unexpected b) ih at keeps known e n =
    unexpected_split s c cs input e n known
turn-HandsOver fuel s c cs input Move.directive ih at keeps known e n =
    directive_split s (c ∷ cs) input e n known
turn-HandsOver fuel s c cs input Move.line_str ih at keeps known e n =
    (text s ++ (c ∷ []), read_byte (text s) c cs input e n (passes_byte s c Move.line_str at refl))
turn-HandsOver fuel s c cs input Move.elsewhere ih at keeps known e n = absurd known

run-HandsOver : (fuel : ℕ) → RunHandsOver fuel
unfolding run
run-HandsOver zero s cs input h e n = tt
run-HandsOver (suc fuel) s [] input h e n = tt
run-HandsOver (suc fuel) s (c ∷ cs) input h e n =
    turn-HandsOver fuel s c cs input (transition s c) (run-HandsOver fuel) refl
      (transition-Keeps s c h) (transition-KnownMove s c h) e n

-- A token for a mark, or the state that the token goes on in, with what is read by then.
pub lex-HandsOver : (cs : List ℕ) → EndsNul cs → HandsOver cs (lex cs)
unfolding lex
lex-HandsOver cs n = run-HandsOver 5 State.s0 cs cs refl refl n
