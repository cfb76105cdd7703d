-- ===== src/Lexer/Scan.antt =====
-- src/frontend/lexer.rs: every state for numbers reads a literal of the grammar, or reports one.
use vif.Prelude.{
  ℕ, List, [], ◌∷◌, ◌++◌, Bool, true, false, ◌||◌, ◌==◌, ◌≡◌, ◌≢◌, refl, sym, ap, ◌∙◌, arith,
  length-append, ◌⊎◌, inl, inr, Bool-cases,
}
use vif.Lexer.Chars.{
  is_digit, is_digit_or_uscore, is_bin_digit_or_uscore, is_oct_digit_or_uscore,
  is_hex_digit_or_uscore,
}
use vif.Lexer.Classes.{
  digits_test, dec_test, bin_test, oct_test, hex_test, is_digit_lem, is_bin_digit_or_uscore_lem,
  is_oct_digit_or_uscore_lem, is_hex_digit_or_uscore_lem,
}
use vif.Lexer.Numbers.{
  Radix, eat, seen_in, int_after, int_bin, int_oct, int_hex, exponent_after, float_exp2, float_exp1,
  is_exponent,
}
use vif.Lexer.Literals.{
  EndsNul, All, HasDigit, IsInt, IsMantissa, IsFloat, Splits, Reads, Eaten, append_assoc,
  EndsNul-tail, eat_lem, seen_in_lem, eat_decimal, read_more,
}

-- More bytes are read.
pub grow :
    (input text cs more rest : List ℕ)
    → Splits input text cs
    → more ++ rest ≡ cs
    → EndsNul rest
    → Splits input (text ++ more) rest
grow input text cs more rest s e n = record {
  bytes = read_more input text more rest (ap (λ xs. text ++ xs) e ∙ s.bytes);
  ends = n;
  progress = omega (arith, length-append {0} text more, s.progress);
}

-- One byte, which is not the NUL.
pub grow_one :
    (input text cs : List ℕ) (c : ℕ)
    → Splits input text (c ∷ cs)
    → c ≢ 0
    → Splits input (text ++ (c ∷ [])) cs
grow_one input text cs c s ne =
    grow input text (c ∷ cs) (c ∷ []) cs s refl (EndsNul-tail c cs s.ends ne)

int_after_lem :
    (r : Radix) (range : ℕ → Bool) (input text cs : List ℕ) (x : List ℕ × List ℕ)
    → Splits input text cs
    → Eaten range cs x
    → ((ds : List ℕ) → All range ds → HasDigit ds → IsInt r (text ++ ds))
    → Reads input (int_after r text x)
int_after_lem r range input text cs (ds, rest) s h rule =
    let s' = grow input text cs ds rest s h.bytes (h.ends s.ends) in
    elim (Bool-cases (seen_in ds)) [
      | inl e ↦ rw e (s', rule ds h.digits (seen_in_lem ds e))
      | inr e ↦ rw e (text ++ ds, s')
    ]

pub int_bin_lem :
    (input cs : List ℕ) → Splits input (48 ∷ 98 ∷ []) cs → Reads input (int_bin (48 ∷ 98 ∷ []) cs)
unfolding int_bin
int_bin_lem input cs s =
    int_after_lem Radix.binary bin_test input (48 ∷ 98 ∷ []) cs (eat is_bin_digit_or_uscore cs) s
      (eat_lem is_bin_digit_or_uscore bin_test cs is_bin_digit_or_uscore_lem refl)
      (λ ds h k. (ds, refl, h, k))

pub int_oct_lem :
    (input cs : List ℕ) → Splits input (48 ∷ 111 ∷ []) cs → Reads input (int_oct (48 ∷ 111 ∷ []) cs)
unfolding int_oct
int_oct_lem input cs s =
    int_after_lem Radix.octal oct_test input (48 ∷ 111 ∷ []) cs (eat is_oct_digit_or_uscore cs) s
      (eat_lem is_oct_digit_or_uscore oct_test cs is_oct_digit_or_uscore_lem refl)
      (λ ds h k. (ds, refl, h, k))

pub int_hex_lem :
    (input cs : List ℕ) → Splits input (48 ∷ 120 ∷ []) cs → Reads input (int_hex (48 ∷ 120 ∷ []) cs)
unfolding int_hex
int_hex_lem input cs s =
    int_after_lem Radix.hexadecimal hex_test input (48 ∷ 120 ∷ []) cs
      (eat is_hex_digit_or_uscore cs) s
      (eat_lem is_hex_digit_or_uscore hex_test cs is_hex_digit_or_uscore_lem refl)
      (λ ds h k. (ds, refl, h, k))

-- The digits of an exponent make a float of what is read, if there is one.
abbrev Completes : Bool → List ℕ → Type 0
Completes seen text =
    (ds : List ℕ) → All dec_test ds → (seen ≡ true) ⊎ HasDigit ds → IsFloat (text ++ ds)

exponent_after_lem :
    (seen : Bool) (input text cs : List ℕ) (x : List ℕ × List ℕ)
    → Splits input text cs
    → Eaten dec_test cs x
    → Completes seen text
    → Reads input (exponent_after seen text x)
exponent_after_lem true input text cs (ds, rest) s h rule =
    (grow input text cs ds rest s h.bytes (h.ends s.ends), rule ds h.digits (inl refl))
exponent_after_lem false input text cs (ds, rest) s h rule =
    let s' = grow input text cs ds rest s h.bytes (h.ends s.ends) in
    elim (Bool-cases (seen_in ds)) [
      | inl e ↦ rw e (s', rule ds h.digits (inr (seen_in_lem ds e)))
      | inr e ↦ rw e (text ++ ds, s')
    ]

float_exp2_lem :
    (seen : Bool) (input text cs : List ℕ)
    → Splits input text cs
    → Completes seen text
    → Reads input (float_exp2 seen text cs)
unfolding float_exp2
float_exp2_lem seen input text cs s rule =
    exponent_after_lem seen input text cs (eat is_digit_or_uscore cs) s (eat_decimal cs) rule

digit_dec : (c : ℕ) → digits_test c ≡ true → dec_test c ≡ true
digit_dec c h = rw h refl

digit_not_uscore : (c : ℕ) → digits_test c ≡ true → c ≢ 95
digit_not_uscore c h e = ground arith

-- The three ways in which an exponent goes on.
with_sign-Completes :
    (m : List ℕ) (e c : ℕ)
    → IsMantissa m
    → (e ≡ 101) ⊎ (e ≡ 69)
    → (c ≡ 43) ⊎ (c ≡ 45)
    → Completes false ((m ++ (e ∷ [])) ++ (c ∷ []))
with_sign-Completes m e c hm he hc ds h (inl f) = absurd cc
with_sign-Completes m e c hm he hc ds h (inr k) =
    let sign : ((c ∷ []) ≡ 43 ∷ []) ⊎ ((c ∷ []) ≡ 45 ∷ []) = elim hc [
      | inl p ↦ inl (ap (λ n. n ∷ []) p)
      | inr p ↦ inr (ap (λ n. n ∷ []) p)
    ] in
    IsFloat.scaled m (e ∷ c ∷ ds) hm (e, c ∷ [], ds, he, inr sign, h, k, refl)
      (append_assoc (m ++ (e ∷ [])) (c ∷ []) ds ∙ append_assoc m (e ∷ []) (c ∷ ds))

with_digit-Completes :
    (m : List ℕ) (e c : ℕ)
    → IsMantissa m
    → (e ≡ 101) ⊎ (e ≡ 69)
    → digits_test c ≡ true
    → Completes true ((m ++ (e ∷ [])) ++ (c ∷ []))
with_digit-Completes m e c hm he hc ds h k =
    IsFloat.scaled m (e ∷ c ∷ ds) hm
      (e, [], c ∷ ds, he, inl refl, (digit_dec c hc, h), inl (digit_not_uscore c hc), refl)
      (append_assoc (m ++ (e ∷ [])) (c ∷ []) ds ∙ append_assoc m (e ∷ []) (c ∷ ds))

plain-Completes :
    (m : List ℕ) (e : ℕ) → IsMantissa m → (e ≡ 101) ⊎ (e ≡ 69) → Completes false (m ++ (e ∷ []))
plain-Completes m e hm he ds h (inl f) = absurd cc
plain-Completes m e hm he ds h (inr k) =
    IsFloat.scaled m (e ∷ ds) hm (e, [], ds, he, inl refl, h, k, refl) (append_assoc m (e ∷ []) ds)

sign_cases : (c : ℕ) → ((c == 43) || (c == 45)) ≡ true → (c ≡ 43) ⊎ (c ≡ 45)
sign_cases c h = elim (Bool-cases (c == 43)) [
  | inl e ↦ inl (ground arith)
  | inr e ↦ inr (ground arith)
]

pub exponent_cases : (c : ℕ) → is_exponent c ≡ true → (c ≡ 101) ⊎ (c ≡ 69)
exponent_cases c h = elim (Bool-cases (c == 101)) [
  | inl e ↦ inl (ground arith)
  | inr e ↦ inr (ground arith)
]

pub not_nul : (a b c : ℕ) → (c ≡ a) ⊎ (c ≡ b) → a ≢ 0 → b ≢ 0 → c ≢ 0
not_nul a b c (inl e) ha hb z = ha (sym e ∙ z)
not_nul a b c (inr e) ha hb z = hb (sym e ∙ z)

pub float_exp1_lem :
    (input m cs : List ℕ) (e : ℕ)
    → Splits input (m ++ (e ∷ [])) cs
    → IsMantissa m
    → (e ≡ 101) ⊎ (e ≡ 69)
    → Reads input (float_exp1 (m ++ (e ∷ [])) cs)
unfolding float_exp1
float_exp1_lem input m [] e s hm he = absurd (s.ends)
float_exp1_lem input m (c ∷ cs) e s hm he = elim (Bool-cases ((c == 43) || (c == 45))) [
  | inl t ↦
      let sign = sign_cases c t in
      let ne = not_nul 43 45 c sign (λ z. omega arith) (λ z. omega arith) in
      rw t (
        float_exp2_lem false input ((m ++ (e ∷ [])) ++ (c ∷ [])) cs
          (grow_one input (m ++ (e ∷ [])) cs c s ne) (with_sign-Completes m e c hm he sign))
  | inr t ↦ rw t (elim (Bool-cases (is_digit c)) [
    | inl d ↦
        let range = sym (is_digit_lem c) ∙ d in
        rw d (
          float_exp2_lem true input ((m ++ (e ∷ [])) ++ (c ∷ [])) cs
            (grow_one input (m ++ (e ∷ [])) cs c s (λ z. ground arith))
            (with_digit-Completes m e c hm he range))
    | inr d ↦ rw d (elim (Bool-cases (c == 95)) [
      | inl u ↦
          rw u (float_exp2_lem false input (m ++ (e ∷ [])) (c ∷ cs) s (plain-Completes m e hm he))
      | inr u ↦ rw u (m ++ (e ∷ []), s)
    ])
  ])
]
