-- ===== src/Lexer/Widths.antt =====
-- The integer types among the names: the table and the arm for other widths agree.
use vif.Prelude.{
  ◌≤◌, ◌+◌, ◌⊎◌, ◌<◌, ◌-◌, ◌*◌, ℕ, suc, ◌^◌, List, [], ◌∷◌, Bool, true, false, ◌&&◌, ◌||◌, ◌==◌,
  ==_iff, ltb, leb, ◌≡◌, refl, sym, ap, ap₂, ◌∙◌, arith, Option, none, some, Bool-cases, inl, inr,
  length, if◌then◌else◌, not,
}
use mathlib.Core.Path.{subst}
use native.Mathlib.Nat.{pow-suc}
use vif.Lexer.Chars.{is_digit, char_table, between}
use vif.Lexer.Run.{bytes_eq}
use vif.Lexer.Names.{
  Name, names, find_name, candidate, all_digits, decimal, width_of, sized, other_name, or_other,
  name_of,
}

abbrev pub prefix : Bool → ℕ
prefix true = 105
prefix false = 117

-- `u` or `i`, and digits.
abbrev is_int_name : List ℕ → Bool
is_int_name [] = false
is_int_name (c ∷ []) = false
is_int_name (c ∷ d ∷ ds) = ((c == 117) || (c == 105)) && all_digits (d ∷ ds)

abbrev FitsIf : Bool → List ℕ → Name → Type 0
FitsIf true (c ∷ cs) name = name ≡ sized (c == 105) (decimal cs 0)
FitsIf _ str name = Unit {0}

-- The token of an integer type has the width that its digits mean.
abbrev Fits : List ℕ → Name → Type 0
Fits str name = FitsIf (is_int_name str) str name

abbrev AllFit : List (List ℕ × Name) → Type 0
AllFit [] = Unit {0}
AllFit ((text, name) ∷ table) = Fits text name × AllFit table

names-AllFit : AllFit names
unfolding is_digit char_table
names-AllFit = ground arith

bytes_eq_lem : (xs ys : List ℕ) → bytes_eq xs ys ≡ true → xs ≡ ys
bytes_eq_lem [] [] h = refl
bytes_eq_lem [] (y ∷ ys) h = absurd cc
bytes_eq_lem (x ∷ xs) [] h = absurd cc
bytes_eq_lem (x ∷ xs) (y ∷ ys) h = elim (Bool-cases (x == y)) [
  | inl e ↦
      let more : bytes_eq xs ys ≡ true = subst (λ b. (b && bytes_eq xs ys) ≡ true) e h in
      ap₂ (λ c cs. c ∷ cs) ((==_iff x y).0 e) (bytes_eq_lem xs ys more)
  | inr e ↦ let no : false ≡ true = subst (λ b. (b && bytes_eq xs ys) ≡ true) e h in absurd cc
]

abbrev FoundFits : List ℕ → Option Name → Type 0
FoundFits str none = Unit {0}
FoundFits str (some name) = Fits str name

find_name-FoundFits :
    (table : List (List ℕ × Name)) (str : List ℕ)
    → AllFit table
    → FoundFits str (find_name table str)
find_name-FoundFits [] str all = tt
find_name-FoundFits ((text, name) ∷ table) str (first, all) =
    elim (Bool-cases (bytes_eq str text)) [
      | inl e ↦ rw e (subst (λ s. Fits s name) (sym (bytes_eq_lem str text e)) first)
      | inr e ↦ rw e (find_name-FoundFits table str all)
    ]

candidate-FoundFits : (str : List ℕ) → FoundFits str (candidate str)
candidate-FoundFits str = go (not (between 2 (length str) 9) || (length str == 10))
  where
    go : (b : Bool) → FoundFits str (if b then none else find_name names str)
    go true = tt
    go false = find_name-FoundFits names str names-AllFit

width_of_lem : (sign : Bool) (n : ℕ) → sized sign (if ltb n (2 ^ 64) then n else 0) ≡ sized sign n
width_of_lem sign n = ground arith

long_enough :
    (d : ℕ) (ds : List ℕ)
    → all_digits (d ∷ ds) ≡ true
    → (leb 2 (suc (suc (length ds))) && all_digits (d ∷ ds)) ≡ true
long_enough d ds h =
    let two : leb 2 (suc (suc (length ds))) ≡ true = ground arith in
    ap (λ b. b && all_digits (d ∷ ds)) two ∙ h

other_lem :
    (sign : Bool) (d : ℕ) (ds : List ℕ)
    → all_digits (d ∷ ds) ≡ true
    → other_name (prefix sign ∷ d ∷ ds) ≡ sized sign (decimal (d ∷ ds) 0)
other_lem true d ds h =
    ap (λ b. if b then sized true (width_of (d ∷ ds)) else Name.ident (105 ∷ d ∷ ds))
      (long_enough d ds h)
    ∙ width_of_lem true (decimal (d ∷ ds) 0)
other_lem false d ds h =
    ap (λ b. if b then sized false (width_of (d ∷ ds)) else Name.ident (117 ∷ d ∷ ds))
      (long_enough d ds h)
    ∙ width_of_lem false (decimal (d ∷ ds) 0)

found_lem :
    (sign : Bool) (d : ℕ) (ds : List ℕ) (o : Option Name)
    → all_digits (d ∷ ds) ≡ true
    → FoundFits (prefix sign ∷ d ∷ ds) o
    → or_other o (prefix sign ∷ d ∷ ds) ≡ sized sign (decimal (d ∷ ds) 0)
found_lem sign d ds none h f = other_lem sign d ds h
found_lem true d ds (some name) h f = subst (λ b. FitsIf b (105 ∷ d ∷ ds) name) h f
found_lem false d ds (some name) h f = subst (λ b. FitsIf b (117 ∷ d ∷ ds) name) h f

-- The number that decimal digits mean, by the weights of their places.
abbrev pub number_of : List ℕ → ℕ
number_of [] = 0
number_of (c ∷ cs) = (c - 48) * 10 ^ length cs + number_of cs

number_of_lem : (ds : List ℕ) (n : ℕ) → decimal ds n ≡ n * 10 ^ length ds + number_of ds
number_of_lem [] n = omega arith
number_of_lem (d ∷ ds) n =
    number_of_lem ds (n * 10 + (d - 48))
    ∙ omega (arith, ap (λ (p : ℕ). n * p) (pow-suc 10 (length ds)))

decimal_lem : (ds : List ℕ) → decimal ds 0 ≡ number_of ds
decimal_lem ds = number_of_lem ds 0 ∙ omega arith

-- The integer type of a width from 1 to 65535, and the error for every other width.
abbrev pub IsIntName : Bool → ℕ → Name → Type 0
IsIntName sign width name =
    ((0 < width) × (width ≤ 65535) × (name ≡ Name.ty_int sign width))
    ⊎ (((width ≡ 0) ⊎ (65536 ≤ width)) × (name ≡ Name.invalid_width))

sized-IsIntName : (sign : Bool) (width : ℕ) → IsIntName sign width (sized sign width)
sized-IsIntName sign width = elim (Bool-cases ((width == 0) || ltb 65535 width)) [
  | inl e ↦ let wrong : (width ≡ 0) ⊎ (65536 ≤ width) = ground arith in inr (wrong, rw e refl)
  | inr e ↦
      let positive : 0 < width = ground arith in
      let small : width ≤ 65535 = ground arith in inl (positive, small, rw e refl)
]

-- `i` or `u` and decimal digits is the integer type of the width that they mean, also where the
-- table of names has it, if the width is from 1 to 65535, and an error for every other width.
pub name_of-prefix :
    (sign : Bool) (d : ℕ) (ds : List ℕ)
    → all_digits (d ∷ ds) ≡ true
    → IsIntName sign (number_of (d ∷ ds)) (name_of (prefix sign ∷ d ∷ ds))
unfolding name_of
name_of-prefix sign d ds h =
    subst (λ name. IsIntName sign (number_of (d ∷ ds)) name)
      (sym (
        found_lem sign d ds (candidate (prefix sign ∷ d ∷ ds)) h
          (candidate-FoundFits (prefix sign ∷ d ∷ ds))
        ∙ ap (sized sign) (decimal_lem (d ∷ ds))))
      (sized-IsIntName sign (number_of (d ∷ ds)))
