-- ===== src/Lexer/Literals.antt =====
-- src/frontend/lexer.rs: the numbers as a grammar, and what the lexer reads against it.
use vif.Prelude.{
  ℕ, ◌<◌, List, [], ◌∷◌, ◌++◌, Bool, true, false, ◌==◌, ◌≡◌, ◌≢◌, refl, sym, ap, ◌∙◌, arith, length,
  ◌⊎◌, inl, inr, Bool-cases,
}
use vif.Lexer.Chars.{is_digit_or_uscore}
use vif.Lexer.Classes.{digits_test, dec_test, bin_test, oct_test, hex_test, is_digit_or_uscore_lem}
use vif.Lexer.Numbers.{Radix, Number, eat, seen_in}

-- The last byte of the buffer is a NUL, which `Lexer::new` is given.
abbrev pub EndsNul : List ℕ → Type 0
EndsNul [] = ⊥
EndsNul (c ∷ []) = c ≡ 0
EndsNul (c ∷ d ∷ cs) = EndsNul (d ∷ cs)

abbrev pub All : (ℕ → Bool) → List ℕ → Type 0
All test [] = Unit {0}
All test (c ∷ cs) = (test c ≡ true) × All test cs

-- A byte is not `_`.
abbrev pub HasDigit : List ℕ → Type 0
HasDigit [] = ⊥
HasDigit (c ∷ cs) = (c ≢ 95) ⊎ HasDigit cs

-- A digit, and then digits and `_`.
abbrev pub IsDecimal : List ℕ → Type 0
IsDecimal [] = ⊥
IsDecimal (c ∷ ds) = (digits_test c ≡ true) × All dec_test ds

-- A zero, the letter `p`, and digits of a radix, one of them no `_`.
abbrev pub IsPrefixed : ℕ → (ℕ → Bool) → List ℕ → Type 0
IsPrefixed p test text = (ds : List ℕ) × (text ≡ 48 ∷ p ∷ ds) × All test ds × HasDigit ds

abbrev pub IsInt : Radix → List ℕ → Type 0
IsInt Radix.binary text = IsPrefixed 98 bin_test text
IsInt Radix.octal text = IsPrefixed 111 oct_test text
IsInt Radix.decimal text = IsDecimal text
IsInt Radix.hexadecimal text = IsPrefixed 120 hex_test text

-- Digits on both sides of a dot; those before it can be left out.
abbrev pub IsDotted : List ℕ → Type 0
IsDotted text =
    (w : List ℕ) × (d : List ℕ) × ((w ≡ []) ⊎ IsDecimal w) × IsDecimal d × (text ≡ w ++ (46 ∷ d))

abbrev pub IsMantissa : List ℕ → Type 0
IsMantissa text = IsDecimal text ⊎ IsDotted text

-- `e` or `E`, a sign that can be left out, and digits, one of them no `_`.
abbrev pub IsExponent : List ℕ → Type 0
IsExponent x =
    (e : ℕ) × (s : List ℕ) × (ds : List ℕ) × ((e ≡ 101) ⊎ (e ≡ 69))
    × ((s ≡ []) ⊎ ((s ≡ 43 ∷ []) ⊎ (s ≡ 45 ∷ [])))
    × All dec_test ds
    × HasDigit ds
    × (x ≡ e ∷ (s ++ ds))

pub data IsFloat (text : List ℕ) : Type 0 where
  trailing_dot : (w : List ℕ) → IsDecimal w → text ≡ w ++ (46 ∷ []) → IsFloat text
  dotted : IsDotted text → IsFloat text
  scaled : (m x : List ℕ) → IsMantissa m → IsExponent x → text ≡ m ++ x → IsFloat text

-- The input is some bytes, which are read, and the rest, which still ends with the NUL.
pub record Splits (input text rest : List ℕ) : Type 0 where
  pub bytes : text ++ rest ≡ input
  pub ends : EndsNul rest
  pub progress : 0 < length text

-- What the lexer makes of a number at the start of the input.
abbrev pub Reads : List ℕ → Number → Type 0
Reads input (Number.lit_int r text rest) = Splits input text rest × IsInt r text
Reads input (Number.lit_float text rest) = Splits input text rest × IsFloat text
Reads input (Number.invalid_int rest) = (text : List ℕ) × Splits input text rest
Reads input (Number.invalid_float rest) = (text : List ℕ) × Splits input text rest
Reads input Number.overrun = ⊥

pub append_assoc : (xs ys zs : List ℕ) → (xs ++ ys) ++ zs ≡ xs ++ (ys ++ zs)
append_assoc [] ys zs = refl
append_assoc (x ∷ xs) ys zs = ap (λ ws. x ∷ ws) (append_assoc xs ys zs)

pub EndsNul-tail : (c : ℕ) (cs : List ℕ) → EndsNul (c ∷ cs) → c ≢ 0 → EndsNul cs
EndsNul-tail c [] h ne = ne h
EndsNul-tail c (d ∷ cs) h ne = h

pub All-append :
    (test : ℕ → Bool) (xs ys : List ℕ) → All test xs → All test ys → All test (xs ++ ys)
All-append test [] ys h k = k
All-append test (x ∷ xs) ys h k = (h.0, All-append test xs ys h.1 k)

pub IsDecimal-append : (xs ys : List ℕ) → IsDecimal xs → All dec_test ys → IsDecimal (xs ++ ys)
IsDecimal-append [] ys h k = absurd h
IsDecimal-append (x ∷ xs) ys h k = (h.0, All-append dec_test xs ys h.1 k)

pub IsDotted-append : (xs ys : List ℕ) → IsDotted xs → All dec_test ys → IsDotted (xs ++ ys)
IsDotted-append xs ys (w, d, hw, hd, e) k =
    (w, d ++ ys, hw, IsDecimal-append d ys hd k, ap (λ zs. zs ++ ys) e ∙ append_assoc w (46 ∷ d) ys)

-- What a loop over digits passes, and what it leaves.
pub record Eaten (range : ℕ → Bool) (cs : List ℕ) (r : List ℕ × List ℕ) : Type 0 where
  pub bytes : r.0 ++ r.1 ≡ cs
  pub digits : All range r.0
  pub ends : EndsNul cs → EndsNul r.1

Eaten-cons :
    (range : ℕ → Bool) (c : ℕ) (cs : List ℕ) (r : List ℕ × List ℕ)
    → Eaten range cs r
    → range c ≡ true
    → range 0 ≡ false
    → Eaten range (c ∷ cs) (c ∷ r.0, r.1)
Eaten-cons range c cs r h e z = record {
  bytes = ap (λ xs. c ∷ xs) h.bytes;
  digits = (e, h.digits);
  ends = λ n. h.ends (EndsNul-tail c cs n (λ zero_byte. absurd (let f = ap range zero_byte in cc)));
}

pub eat_lem :
    (test range : ℕ → Bool) (cs : List ℕ)
    → ((b : ℕ) → test b ≡ range b)
    → range 0 ≡ false
    → Eaten range cs (eat test cs)
unfolding eat
eat_lem test range [] same z = record { bytes = refl; digits = tt; ends = λ n. n }
eat_lem test range (c ∷ cs) same z =
    let ih = eat_lem test range cs same z in
    elim (Bool-cases (test c)) [
      | inl e ↦ rw e (Eaten-cons range c cs (eat test cs) ih (sym (same c) ∙ e) z)
      | inr e ↦ rw e (record { bytes = refl; digits = tt; ends = λ n. n })
    ]

pub seen_in_lem : (cs : List ℕ) → seen_in cs ≡ true → HasDigit cs
seen_in_lem [] h = absurd cc
seen_in_lem (c ∷ cs) h = elim (Bool-cases (c == 95)) [
  | inl e ↦ inr (seen_in_lem cs (rw e at h))
  | inr e ↦ inl (λ same. ground arith)
]

pub eat_decimal : (cs : List ℕ) → Eaten dec_test cs (eat is_digit_or_uscore cs)
eat_decimal cs = eat_lem is_digit_or_uscore dec_test cs is_digit_or_uscore_lem refl

-- More bytes are read.
pub read_more :
    (input text more rest : List ℕ)
    → text ++ (more ++ rest) ≡ input
    → (text ++ more) ++ rest ≡ input
read_more input text more rest e = append_assoc text more rest ∙ e
