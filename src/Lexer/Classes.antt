-- ===== src/Lexer/Classes.antt =====
-- src/frontend/lexer.rs: the classes of `char_class`, as ranges of bytes.
use vif.Prelude.{
  ℕ, zero, suc, ◌≤◌, ◌<◌, Bool, true, false, not, ◌&&◌, ◌||◌, ◌==◌, ltb, ◌≡◌, refl, arith,
  Bool-cases, inl, inr,
}
use vif.Lexer.Chars.{
  is_whitespace, is_oct_digit_or_uscore, is_hex_digit_or_uscore, is_digit_or_uscore,
  is_bin_digit_or_uscore, between, char_table, is_digit,
}

all_below : ℕ → (ℕ → Bool) → Bool
all_below zero test = true
all_below (suc n) test = test n && all_below n test

abbrev same : Bool → Bool → Bool
same true b = b
same false b = not b

same_lem : (a b : Bool) → same a b ≡ true → a ≡ b
same_lem true true h = refl
same_lem true false h = absurd cc
same_lem false true h = absurd cc
same_lem false false h = refl

and_cases : (a b : Bool) → (a && b) ≡ true → (a ≡ true) × (b ≡ true)
and_cases true true h = (refl, refl)
and_cases true false h = absurd cc
and_cases false b h = absurd cc

all_below_lem : (n : ℕ) (test : ℕ → Bool) (b : ℕ) → all_below n test ≡ true → b < n → test b ≡ true
unfolding all_below
all_below_lem zero test b h lt = absurd (omega arith)
all_below_lem (suc n) test b h lt =
    let (first, rest) = and_cases (test n) (all_below n test) h in
    elim (Bool-cases (b == n)) [
      | inl e ↦ let eq : b ≡ n = ground arith in rw eq first
      | inr e ↦ all_below_lem n test b rest (ground arith)
    ]

abbrev pub digits_test : ℕ → Bool
digits_test b = between 48 b 57

abbrev pub dec_test : ℕ → Bool
dec_test b = between 48 b 57 || (b == 95)

abbrev pub bin_test : ℕ → Bool
bin_test b = between 48 b 49 || (b == 95)

abbrev pub oct_test : ℕ → Bool
oct_test b = between 48 b 55 || (b == 95)

abbrev pub hex_test : ℕ → Bool
hex_test b = (between 48 b 57 || between 97 b 102 || between 65 b 70) || (b == 95)

abbrev pub blank_test : ℕ → Bool
blank_test b = (b == 32) || (b == 9) || (b == 10) || (b == 13)

-- The table has nothing for a number that is no byte.
char_table_above : (b : ℕ) → 256 ≤ b → char_table b ≡ 0
unfolding char_table
char_table_above b h = ground arith

by_table :
    (test range : ℕ → Bool) (b : ℕ)
    → all_below 256 (λ n. same (test n) (range n)) ≡ true
    → (256 ≤ b → test b ≡ range b)
    → test b ≡ range b
by_table test range b h above = elim (Bool-cases (ltb b 256)) [
  | inl e ↦
      same_lem (test b) (range b)
        (all_below_lem 256 (λ n. same (test n) (range n)) b h (ground arith))
  | inr e ↦ above (ground arith)
]

pub is_digit_lem : (b : ℕ) → is_digit b ≡ digits_test b
unfolding is_digit char_table all_below
is_digit_lem b =
    by_table is_digit digits_test b refl (λ h. rw (char_table_above b h) (ground arith))

pub is_digit_or_uscore_lem : (b : ℕ) → is_digit_or_uscore b ≡ dec_test b
unfolding is_digit_or_uscore char_table all_below
is_digit_or_uscore_lem b =
    by_table is_digit_or_uscore dec_test b refl (λ h. rw (char_table_above b h) (ground arith))

pub is_bin_digit_or_uscore_lem : (b : ℕ) → is_bin_digit_or_uscore b ≡ bin_test b
unfolding is_bin_digit_or_uscore char_table all_below
is_bin_digit_or_uscore_lem b =
    by_table is_bin_digit_or_uscore bin_test b refl (λ h. rw (char_table_above b h) (ground arith))

pub is_oct_digit_or_uscore_lem : (b : ℕ) → is_oct_digit_or_uscore b ≡ oct_test b
unfolding is_oct_digit_or_uscore char_table all_below
is_oct_digit_or_uscore_lem b =
    by_table is_oct_digit_or_uscore oct_test b refl (λ h. rw (char_table_above b h) (ground arith))

pub is_hex_digit_or_uscore_lem : (b : ℕ) → is_hex_digit_or_uscore b ≡ hex_test b
unfolding is_hex_digit_or_uscore char_table all_below
is_hex_digit_or_uscore_lem b =
    by_table is_hex_digit_or_uscore hex_test b refl (λ h. rw (char_table_above b h) (ground arith))

pub is_whitespace_lem : (b : ℕ) → is_whitespace b ≡ blank_test b
unfolding is_whitespace char_table all_below
is_whitespace_lem b =
    by_table is_whitespace blank_test b refl (λ h. rw (char_table_above b h) (ground arith))
