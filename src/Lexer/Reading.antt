-- ===== src/Lexer/Reading.antt =====
-- src/frontend/lexer.rs: the states with which a number starts, and src/ir/vuir/from_ast.rs: the
-- integer of a literal.
use vif.Prelude.{
  false, ◌≤◌, ℕ, List, [], ◌∷◌, ◌++◌, true, ◌==◌, ◌≡◌, ◌≢◌, refl, sym, ◌∙◌, arith, inl, inr,
  Bool-cases, if◌then◌else◌,
}
use vif.Lexer.Chars.{is_digit, is_digit_or_uscore, is_bin_digit_or_uscore}
use vif.Lexer.Classes.{bin_test, dec_test, is_digit_lem, is_bin_digit_or_uscore_lem}
use vif.Lexer.Numbers.{
  Radix, Number, eat, float_exp1, is_exponent, fraction_after, float_dot2, float_dot1, whole_after,
  int_dec, int_zero,
}
use vif.Lexer.Literals.{
  IsDecimal, IsDotted, IsFloat, Splits, Reads, IsDecimal-append, IsDotted-append, eat_decimal,
}
use vif.Lexer.Scan.{
  grow, grow_one, float_exp1_lem, exponent_cases, not_nul, int_bin_lem, int_oct_lem, int_hex_lem,
}

exponent_not_nul : (c : ℕ) → is_exponent c ≡ true → c ≢ 0
exponent_not_nul c h = not_nul 101 69 c (exponent_cases c h) (λ z. omega arith) (λ z. omega arith)

fraction_after_lem :
    (input text cs : List ℕ)
    → Splits input text cs
    → IsDotted text
    → Reads input (fraction_after text cs)
fraction_after_lem input text [] s h = absurd (s.ends)
fraction_after_lem input text (c ∷ cs) s h = elim (Bool-cases (is_exponent c)) [
  | inl e ↦ rw e (
      float_exp1_lem input text cs c (grow_one input text cs c s (exponent_not_nul c e)) (inr h)
        (exponent_cases c e))
  | inr e ↦ rw e (s, IsFloat.dotted h)
]

pub float_dot2_lem :
    (input text cs : List ℕ)
    → Splits input text cs
    → IsDotted text
    → Reads input (float_dot2 text cs)
unfolding float_dot2
float_dot2_lem input text cs s h =
    let r = eat is_digit_or_uscore cs in
    let x = eat_decimal cs in
    fraction_after_lem input (text ++ r.0) r.1
      (grow input text cs r.0 r.1 s x.bytes (x.ends s.ends)) (IsDotted-append text r.0 h x.digits)

-- The dot is not in `text`, and is not the end of it.
pub float_dot1_lem :
    (input text cs : List ℕ)
    → Splits input text (46 ∷ cs)
    → IsDecimal text
    → Reads input (float_dot1 text cs)
unfolding float_dot1
float_dot1_lem input text [] s h = absurd (let z : 46 ≡ 0 = s.ends in omega arith)
float_dot1_lem input text (c ∷ cs) s h =
    let dot = grow_one input text (c ∷ cs) 46 s (λ z. omega arith) in
    elim (Bool-cases (is_exponent c)) [
      | inl e ↦ rw e (
        (text ++ (46 ∷ [])) ++ (c ∷ []),
        grow_one input (text ++ (46 ∷ [])) cs c dot (exponent_not_nul c e),
      )
      | inr e ↦ rw e (elim (Bool-cases (is_digit c)) [
        | inl d ↦
            let range = sym (is_digit_lem c) ∙ d in
            rw d (
              float_dot2_lem input (text ++ (46 ∷ c ∷ [])) cs
                (grow input text (46 ∷ c ∷ cs) (46 ∷ c ∷ []) cs s refl
                  (grow_one input (text ++ (46 ∷ [])) cs c dot (λ z. ground arith)).ends)
                (text, c ∷ [], inr h, (range, tt), refl))
        | inr d ↦ rw d (elim (Bool-cases (c == 46)) [
          | inl u ↦ let same : c ≡ 46 = ground arith in rw (u, same) (rw same at s, h)
          | inr u ↦ rw u (dot, IsFloat.trailing_dot text h refl)
        ])
      ])
    ]

whole_after_lem :
    (input text cs : List ℕ)
    → Splits input text cs
    → IsDecimal text
    → Reads input (whole_after text cs)
whole_after_lem input text [] s h = absurd (s.ends)
whole_after_lem input text (c ∷ cs) s h = elim (Bool-cases (c == 46)) [
  | inl u ↦ let same : c ≡ 46 = ground arith in rw u (float_dot1_lem input text cs (rw same at s) h)
  | inr u ↦ rw u (elim (Bool-cases (is_exponent c)) [
    | inl e ↦ rw e (
        float_exp1_lem input text cs c (grow_one input text cs c s (exponent_not_nul c e)) (inl h)
          (exponent_cases c e))
    | inr e ↦ rw e (s, h)
  ])
]

pub int_dec_lem :
    (input text cs : List ℕ) → Splits input text cs → IsDecimal text → Reads input (int_dec text cs)
unfolding int_dec
int_dec_lem input text cs s h =
    let r = eat is_digit_or_uscore cs in
    let x = eat_decimal cs in
    whole_after_lem input (text ++ r.0) r.1 (grow input text cs r.0 r.1 s x.bytes (x.ends s.ends))
      (IsDecimal-append text r.0 h x.digits)

bin_dec : (c : ℕ) → is_bin_digit_or_uscore c ≡ true → (dec_test c ≡ true) × (c ≢ 0)
bin_dec c h =
    let range = sym (is_bin_digit_or_uscore_lem c) ∙ h in (ground arith, λ z. ground arith)

int_zero_decimal :
    (input : List ℕ) (c : ℕ) (cs : List ℕ)
    → Splits input (48 ∷ []) (c ∷ cs)
    → Reads input (
        if c == 46
        then float_dot1 (48 ∷ []) cs
        else if is_exponent c
        then float_exp1 (48 ∷ c ∷ []) cs
        else if is_bin_digit_or_uscore c
        then int_dec (48 ∷ c ∷ []) cs
        else Number.lit_int Radix.decimal (48 ∷ []) (c ∷ cs))
int_zero_decimal input c cs s = elim (Bool-cases (c == 46)) [
  | inl u ↦
      let same : c ≡ 46 = ground arith in
      rw u (float_dot1_lem input (48 ∷ []) cs (rw same at s) (refl, tt))
  | inr u ↦ rw u (elim (Bool-cases (is_exponent c)) [
    | inl e ↦ rw e (
        float_exp1_lem input (48 ∷ []) cs c (grow_one input (48 ∷ []) cs c s (exponent_not_nul c e))
          (inl (refl, tt)) (exponent_cases c e))
    | inr e ↦ rw e (elim (Bool-cases (is_bin_digit_or_uscore c)) [
      | inl d ↦
          let range = bin_dec c d in
          rw d (
            int_dec_lem input (48 ∷ c ∷ []) cs (grow_one input (48 ∷ []) cs c s range.1)
              (refl, (range.0, tt)))
      | inr d ↦ rw d (s, (refl, tt))
    ])
  ])
]

-- After a zero: the letter of a radix, or what follows the first digit of a decimal number.
pub int_zero_lem :
    (input cs : List ℕ) → Splits input (48 ∷ []) cs → Reads input (int_zero (48 ∷ []) cs)
unfolding int_zero
int_zero_lem input [] s = absurd (s.ends)
int_zero_lem input (c ∷ cs) s = elim (Bool-cases (c == 98)) [
  | inl e ↦
      let same : c ≡ 98 = ground arith in
      rw (e, same)
        (int_bin_lem input cs (grow_one input (48 ∷ []) cs 98 (rw same at s) (λ z. omega arith)))
  | inr e ↦ rw e (elim (Bool-cases (c == 111)) [
    | inl e ↦
        let same : c ≡ 111 = ground arith in
        rw (e, same)
          (int_oct_lem input cs (grow_one input (48 ∷ []) cs 111 (rw same at s) (λ z. omega arith)))
    | inr e ↦ rw e (elim (Bool-cases (c == 120)) [
      | inl e ↦
          let same : c ≡ 120 = ground arith in
          rw (e, same)
            (int_hex_lem input cs
              (grow_one input (48 ∷ []) cs 120 (rw same at s) (λ z. omega arith)))
      | inr e ↦ rw e (int_zero_decimal input c cs s)
    ])
  ])
]

-- After a zero, a digit from 2 to 9 is not read as part of the number: the zero is a number of its
-- own, and the digit starts the next one.
pub int_zero-digit :
    (c : ℕ) (cs : List ℕ)
    → 50 ≤ c
    → c ≤ 57
    → int_zero (48 ∷ []) (c ∷ cs) ≡ Number.lit_int Radix.decimal (48 ∷ []) (c ∷ cs)
unfolding int_zero
int_zero-digit c cs low up =
    let outside : bin_test c ≡ false = ground arith in
    let no_bin = is_bin_digit_or_uscore_lem c ∙ outside in
    let b : (c == 98) ≡ false = ground arith in
    let o : (c == 111) ≡ false = ground arith in
    let x : (c == 120) ≡ false = ground arith in
    let dot : (c == 46) ≡ false = ground arith in
    let e : is_exponent c ≡ false = ground arith in rw (b, o, x, dot, e, no_bin) refl
