-- ===== src/Lexer/Continue.antt =====
-- The bytes with which a mark goes on to a longer token, found from the spellings of the marks, and
-- what a state does with a byte that is in none of its arms.
use vif.Prelude.{
  ℕ, List, [], ◌∷◌, ◌++◌, Bool, true, false, ◌≡◌, refl, sym, ap, inl, inr, Bool-cases, ◌||◌, ◌&&◌,
  ◌==◌, ==_iff, if◌then◌else◌,
}
use mathlib.Core.Path.{subst}
use vif.Lexer.Chars.{is_ident_start, is_digit}
use vif.Lexer.Token.{Punct, spelling, Kind}
use vif.Lexer.Moves.{State, Move, on}
use vif.Lexer.Run.{Lexed, lex, turn, settle}

abbrev pub all_puncts : List Punct
all_puncts =
    Punct.minus ∷ Punct.plus ∷ Punct.star ∷ Punct.slash ∷ Punct.backslash ∷ Punct.percent
    ∷ Punct.caret ∷ Punct.amp ∷ Punct.pipe ∷ Punct.bang ∷ Punct.tilde ∷ Punct.eq
    ∷ Punct.question_mark ∷ Punct.lt ∷ Punct.gt ∷ Punct.comma ∷ Punct.semicolon ∷ Punct.colon
    ∷ Punct.l_paren ∷ Punct.r_paren ∷ Punct.l_brace ∷ Punct.r_brace ∷ Punct.l_bracket
    ∷ Punct.r_bracket ∷ Punct.hash ∷ Punct.dot ∷ Punct.underscore ∷ Punct.minus_eq
    ∷ Punct.minus_pipe ∷ Punct.plus_eq ∷ Punct.plus_pipe ∷ Punct.star_star ∷ Punct.star_eq
    ∷ Punct.star_pipe ∷ Punct.slash_eq ∷ Punct.percent_eq ∷ Punct.lt_eq ∷ Punct.lt_lt ∷ Punct.gt_gt
    ∷ Punct.gt_eq ∷ Punct.caret_eq ∷ Punct.amp_eq ∷ Punct.pipe_eq ∷ Punct.amp_amp ∷ Punct.pipe_pipe
    ∷ Punct.eq_eq ∷ Punct.bang_eq ∷ Punct.tilde_eq ∷ Punct.fat_arrow ∷ Punct.dot_dot
    ∷ Punct.dot_star ∷ Punct.dot_question_mark ∷ Punct.minus_pipe_eq ∷ Punct.plus_pipe_eq
    ∷ Punct.lt_lt_eq ∷ Punct.gt_gt_eq ∷ Punct.lt_lt_pipe ∷ Punct.gt_gt_pipe ∷ Punct.lt_lt_percent
    ∷ Punct.gt_gt_percent ∷ Punct.star_pipe_eq ∷ Punct.amp_amp_eq ∷ Punct.pipe_pipe_eq
    ∷ Punct.dot_dot_eq ∷ Punct.ellipsis ∷ Punct.lt_lt_pipe_eq ∷ Punct.lt_lt_percent_eq
    ∷ Punct.gt_gt_pipe_eq ∷ Punct.gt_gt_percent_eq ∷ []

-- The byte after a prefix of a spelling.
abbrev after : List ℕ → List ℕ → List ℕ
after [] [] = []
after [] (b ∷ bs) = b ∷ []
after (x ∷ xs) [] = []
after (x ∷ xs) (b ∷ bs) = if x == b then after xs bs else []

abbrev pub next_bytes_in : List ℕ → List Punct → List ℕ
next_bytes_in prefix [] = []
next_bytes_in prefix (p ∷ ps) = after prefix (spelling p) ++ next_bytes_in prefix ps

-- A second `/` starts a comment, and a second backslash a line of a string.
abbrev other_bytes : Punct → List ℕ
other_bytes Punct.slash = 47 ∷ []
other_bytes Punct.backslash = 92 ∷ []
other_bytes _ = []

-- `.` can start a number, `#` a directive and `_` a name.
abbrev continues_class : Punct → ℕ → Bool
continues_class Punct.dot c = is_digit c
continues_class Punct.hash c = is_ident_start c
continues_class Punct.underscore c = is_ident_start c
continues_class _ c = false

-- The bytes with which a mark goes on to a longer token.
abbrev pub next_bytes : Punct → List ℕ
next_bytes p = other_bytes p ++ next_bytes_in (spelling p) all_puncts

abbrev pub member : ℕ → List ℕ → Bool
member c [] = false
member c (b ∷ bs) = (c == b) || member c bs

abbrev pub continues : Punct → ℕ → Bool
continues p c = member c (next_bytes p) || continues_class p c

abbrev keys_in : List (ℕ × Move) → List ℕ → Bool
keys_in [] bs = true
keys_in ((b, m) ∷ table) bs = member b bs && keys_in table bs

pub or_false : (a b : Bool) → a || b ≡ false → (a ≡ false) × (b ≡ false)
or_false true b h = absurd cc
or_false false b h = (refl, h)

and_true : (a b : Bool) → a && b ≡ true → (a ≡ true) × (b ≡ true)
and_true true b h = (refl, h)
and_true false b h = absurd cc

-- A byte that is not in the table gets the default.
on_absent :
    (c : ℕ) (table : List (ℕ × Move)) (default : Move) (bs : List ℕ)
    → keys_in table bs ≡ true
    → member c bs ≡ false
    → on c table default ≡ default
on_absent c [] default bs keys h = refl
on_absent c ((b, m) ∷ table) default bs keys h =
    let (first, more) = and_true (member b bs) _ keys in
    elim (Bool-cases (c == b)) [
      | inl e ↦
          let same = subst (λ n. member n bs ≡ true) (sym ((==_iff c b).0 e)) first in absurd cc
      | inr e ↦ rw e (on_absent c table default bs more h)
    ]

-- A run on the spelling of the mark `p`.
abbrev pub Munches : Punct → Type 0
Munches p =
    (c : ℕ) (cs : List ℕ)
    → continues p c ≡ false
    → lex (spelling p ++ (c ∷ cs)) ≡ Lexed.done (Kind.punct p) (c ∷ cs)

-- The run of a state that is given the byte `c` after its mark `p`.
pub settled :
    (more : State → Kind → Lexed) (s : State) (p : Punct) (c : ℕ) (cs : List ℕ) (m : Move)
    → m ≡ Move.unread
    → settle more (turn m s (Kind.punct p) c cs) ≡ Lexed.done (Kind.punct p) (c ∷ cs)
settled more s p c cs m e = ap (λ m. settle more (turn m s (Kind.punct p) c cs)) e

pub table_absent :
    (p : Punct) (c : ℕ) (table : List (ℕ × Move)) (default : Move)
    → keys_in table (next_bytes p) ≡ true
    → continues p c ≡ false
    → on c table default ≡ default
table_absent p c table default keys h =
    on_absent c table default (next_bytes p) keys (or_false _ (continues_class p c) h).0
