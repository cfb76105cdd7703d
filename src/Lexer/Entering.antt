-- ===== src/Lexer/Entering.antt =====
-- The states that a run of marks hands over to: what is read by then.
use vif.Prelude.{
  ℕ, ◌<◌, List, [], ◌∷◌, ◌++◌, Bool, true, false, ◌==◌, if◌then◌else◌, length, ◌≡◌, ◌≢◌, refl, sym,
  arith, ◌⊎◌, inl, inr, Bool-cases,
}
use mathlib.Core.Path.{subst}
use vif.Lexer.Classes.{digits_test}
use vif.Lexer.Token.{Kind, IdentKind}
use vif.Lexer.Moves.{State, Move, on}
use vif.Lexer.Spelling.{text, kind_at}

-- The names that the state Ident is entered for.
abbrev pub IsPlainIdent : Kind → Type 0
IsPlainIdent k = (i : IdentKind) × (k ≡ Kind.ident i) × (i ≢ IdentKind.user_escaped)

-- What is read when a state is entered, and the kind by then.
abbrev pub Known : State → Kind → List ℕ → Type 0
Known State.s0 k t = Unit {0}
Known State.minus k t = Unit {0}
Known State.minus_pipe k t = Unit {0}
Known State.plus k t = Unit {0}
Known State.plus_pipe k t = Unit {0}
Known State.star k t = Unit {0}
Known State.star_pipe k t = Unit {0}
Known State.star_star k t = Unit {0}
Known State.slash k t = Unit {0}
Known State.percent k t = Unit {0}
Known State.caret k t = Unit {0}
Known State.amp k t = Unit {0}
Known State.pipe k t = Unit {0}
Known State.bang k t = Unit {0}
Known State.tilde k t = Unit {0}
Known State.eq k t = Unit {0}
Known State.hash k t = Unit {0}
Known State.at k t = Unit {0}
Known State.dollar k t = Unit {0}
Known State.lt k t = Unit {0}
Known State.lt_lt k t = Unit {0}
Known State.lt_lt_pipe k t = Unit {0}
Known State.lt_lt_percent k t = Unit {0}
Known State.gt k t = Unit {0}
Known State.gt_gt k t = Unit {0}
Known State.gt_gt_pipe k t = Unit {0}
Known State.gt_gt_percent k t = Unit {0}
Known State.amp_amp k t = Unit {0}
Known State.pipe_pipe k t = Unit {0}
Known State.dot k t = Unit {0}
Known State.dot_dot k t = Unit {0}
Known State.underscore k t = Unit {0}
Known State.backslash k t = Unit {0}
Known State.line_comment k t = Unit {0}
Known State.ident k t = IsPlainIdent k
Known State.str k t = (k ≡ Kind.lit_str) ⊎ (k ≡ Kind.ident IdentKind.user_escaped)
Known State.escape_str k t = ⊥
Known State.int_zero k t = t ≡ 48 ∷ []
Known State.int_bin k t = ⊥
Known State.int_oct k t = ⊥
Known State.int_hex k t = ⊥
Known State.int_dec k t = (c : ℕ) × (digits_test c ≡ true) × (t ≡ c ∷ [])
Known State.float_dot1 k t = ⊥
Known State.float_dot2 k t = (c : ℕ) × (digits_test c ≡ true) × (t ≡ 46 ∷ c ∷ [])
Known State.float_exp1 k t = ⊥
Known State.float_exp2 k t = ⊥

-- A move enters a state that is known; it gives nothing back before a byte is read.
abbrev pub KnownMove : State → ℕ → Move → Type 0
KnownMove s c (Move.finish k) = Unit {0}
KnownMove s c (Move.goto k s') = Known s' k (text s ++ (c ∷ []))
KnownMove s c (Move.enter s') = Known s' (kind_at s) (text s ++ (c ∷ []))
KnownMove s c Move.unread = 0 < length (text s)
KnownMove s c (Move.unread_as k) = 0 < length (text s)
KnownMove s c (Move.unexpected b) = (0 < length (text s)) ⊎ (c ≢ 0)
KnownMove s c Move.directive = 0 < length (text s)
KnownMove s c Move.line_str = Unit {0}
KnownMove s c Move.elsewhere = ⊥

abbrev pub AllKnown : State → List (ℕ × Move) → Type 0
AllKnown s [] = Unit {0}
AllKnown s ((b, m) ∷ table) = KnownMove s b m × AllKnown s table

pub on-KnownMove :
    (s : State) (c : ℕ) (table : List (ℕ × Move)) (default : Move)
    → AllKnown s table
    → KnownMove s c default
    → KnownMove s c (on c table default)
on-KnownMove s c [] default all h = h
on-KnownMove s c ((b, m) ∷ table) default (first, all) h = elim (Bool-cases (c == b)) [
  | inl e ↦ let same : c ≡ b = ground arith in rw e (subst (λ n. KnownMove s n m) (sym same) first)
  | inr e ↦ rw e (on-KnownMove s c table default all h)
]

pub if-KnownMove :
    (s : State) (c : ℕ) (test : Bool) (x y : Move)
    → (test ≡ true → KnownMove s c x)
    → (test ≡ false → KnownMove s c y)
    → KnownMove s c (if test then x else y)
if-KnownMove s c true x y h k = h refl
if-KnownMove s c false x y h k = k refl

pub user_plain : IsPlainIdent (Kind.ident IdentKind.user)
user_plain = (IdentKind.user, refl, λ e. absurd cc)
