-- ===== src/Lexer/Memx.antt =====
-- The functions of the crate memx that src/frontend/lexer.rs and src/common/span.rs call: they find the first byte of a
-- slice that is one of some needles, or none of them.
use vif.Prelude.{
  ℕ, zero, suc, List, [], ◌∷◌, Bool, true, false, not, ◌||◌, ◌==◌, ◌≡◌, refl, ap, Option, none,
  some, Bool-cases, inl, inr, take, get_elem?,
}

-- `memchr`, `memchr_dbl`, `memchr_tpl` and `memnechr_qpl`.
pub record Memx : Type 0 where
  pub memchr : List ℕ → ℕ → Option ℕ
  pub memchr_dbl : List ℕ → ℕ → ℕ → Option ℕ
  pub memchr_tpl : List ℕ → ℕ → ℕ → ℕ → Option ℕ
  pub memnechr_qpl : List ℕ → ℕ → ℕ → ℕ → ℕ → Option ℕ

abbrev pub is_byte : ℕ → ℕ → Bool
is_byte a c = c == a

abbrev pub is_one_of2 : ℕ → ℕ → ℕ → Bool
is_one_of2 a b c = (c == a) || (c == b)

abbrev pub is_one_of3 : ℕ → ℕ → ℕ → ℕ → Bool
is_one_of3 a b d c = (c == a) || (c == b) || (c == d)

abbrev pub is_none_of4 : ℕ → ℕ → ℕ → ℕ → ℕ → Bool
is_none_of4 a b d e c = not ((c == a) || (c == b) || (c == d) || (c == e))

-- No byte passes the test.
abbrev pub NoneOf : (ℕ → Bool) → List ℕ → Type 0
NoneOf test [] = Unit {0}
NoneOf test (c ∷ cs) = (test c ≡ false) × NoneOf test cs

-- The index is that of the first byte that passes the test; there is none if no byte passes it.
abbrev pub IsFirst : (ℕ → Bool) → List ℕ → Option ℕ → Type 0
IsFirst test cs none = NoneOf test cs
IsFirst test cs (some i) =
    (c : ℕ) × NoneOf test (take i cs) × (get_elem? cs i ≡ some c) × (test c ≡ true)

-- What the crate documents.
pub record IsMemx (m : Memx) : Type 0 where
  pub chr : (cs : List ℕ) (a : ℕ) → IsFirst (is_byte a) cs (m.memchr cs a)
  pub dbl : (cs : List ℕ) (a b : ℕ) → IsFirst (is_one_of2 a b) cs (m.memchr_dbl cs a b)
  pub tpl : (cs : List ℕ) (a b c : ℕ) → IsFirst (is_one_of3 a b c) cs (m.memchr_tpl cs a b c)
  pub nqpl :
      (cs : List ℕ) (a b c d : ℕ) → IsFirst (is_none_of4 a b c d) cs (m.memnechr_qpl cs a b c d)

-- The first index, as a function.
abbrev pub next_index : Option ℕ → Option ℕ
next_index none = none
next_index (some i) = some (suc i)

abbrev pub choose : Bool → Option ℕ → Option ℕ
choose true i? = some 0
choose false i? = next_index i?

unfoldable pub first : (ℕ → Bool) → List ℕ → Option ℕ
first test [] = none
first test (c ∷ cs) = choose (test c) (first test cs)

next_index-IsFirst :
    (test : ℕ → Bool) (c : ℕ) (cs : List ℕ) (i? : Option ℕ)
    → test c ≡ false
    → IsFirst test cs i?
    → IsFirst test (c ∷ cs) (next_index i?)
next_index-IsFirst test c cs none e h = (e, h)
next_index-IsFirst test c cs (some i) e (d, before, at, hit) = (d, (e, before), at, hit)

-- Such functions are there.
pub first-IsFirst : (test : ℕ → Bool) (cs : List ℕ) → IsFirst test cs (first test cs)
unfolding first
first-IsFirst test [] = tt
first-IsFirst test (c ∷ cs) = elim (Bool-cases (test c)) [
  | inl e ↦ rw e (c, tt, refl, e)
  | inr e ↦ rw e (next_index-IsFirst test c cs (first test cs) e (first-IsFirst test cs))
]

-- The law leaves one index.
pub IsFirst-first :
    (test : ℕ → Bool) (cs : List ℕ) (i? : Option ℕ) → IsFirst test cs i? → i? ≡ first test cs
unfolding first
IsFirst-first test [] none h = refl
IsFirst-first test [] (some i) (c, before, at, hit) = absurd cc
IsFirst-first test (c ∷ cs) none h = rw (h.0) (ap next_index (IsFirst-first test cs none h.1))
IsFirst-first test (c ∷ cs) (some zero) (d, before, at, hit) =
    let here : test c ≡ true = cc in rw here refl
IsFirst-first test (c ∷ cs) (some (suc i)) (d, before, at, hit) =
    rw (before.0) (ap next_index (IsFirst-first test cs (some i) (d, before.1, at, hit)))

abbrev pub plain_memx : Memx
plain_memx = record {
  memchr = λ cs a. first (is_byte a) cs;
  memchr_dbl = λ cs a b. first (is_one_of2 a b) cs;
  memchr_tpl = λ cs a b c. first (is_one_of3 a b c) cs;
  memnechr_qpl = λ cs a b c d. first (is_none_of4 a b c d) cs;
}

pub plain_memx-IsMemx : IsMemx plain_memx
plain_memx-IsMemx = record {
  chr = λ cs a. first-IsFirst (is_byte a) cs;
  dbl = λ cs a b. first-IsFirst (is_one_of2 a b) cs;
  tpl = λ cs a b c. first-IsFirst (is_one_of3 a b c) cs;
  nqpl = λ cs a b c d. first-IsFirst (is_none_of4 a b c d) cs;
}
