-- ===== src/Lexer/Quoting.antt =====
-- A printer of string literals, and that the state Str reads back what it prints.
use vif.Prelude.{
  ℕ, zero, suc, ◌<◌, List, [], ◌∷◌, ◌++◌, Bool, false, ◌==◌, if◌then◌else◌, Option, none, some,
  length, take, drop, ◌≡◌, refl, sym, ap, ap₂, ◌∙◌, arith, inl, inr, Bool-cases, Option-cases,
  length-drop, take-append-drop,
}
use vif.Lexer.Memx.{Memx, IsMemx, is_one_of3, first, next_index, IsFirst-first}
use vif.Lexer.Literals.{append_assoc}
use vif.Lexer.Strings.{
  Str, Escape, found_at, eat_until3, escape_str, escaped, str_turn, str_settle, str,
}

-- The letter of the escape of a byte that cannot stand for itself.
abbrev pub escape_of : ℕ → Option ℕ
escape_of b =
    if b == 0
    then some 48
    else if b == 34
    then some 34
    else if b == 92
    then some 92
    else if b == 10
    then some 110
    else none

abbrev pub quote_onto : Option ℕ → ℕ → List ℕ → List ℕ
quote_onto none b cs = b ∷ cs
quote_onto (some letter) b cs = 92 ∷ letter ∷ cs

-- The bytes as they stand between the quotes.
unfoldable pub quote : List ℕ → List ℕ
quote [] = []
quote (b ∷ bs) = quote_onto (escape_of b) b (quote bs)

abbrev is_special : ℕ → Bool
is_special c = is_one_of3 34 92 10 c

plain_lem :
    (b : ℕ)
    → escape_of b ≡ none
    → ((b == 0) ≡ false) × ((b == 10) ≡ false) × ((b == 34) ≡ false) × ((b == 92) ≡ false)
plain_lem b h = ground arith

escape_lem :
    (m : Memx) (b letter : ℕ) (cs : List ℕ)
    → escape_of b ≡ some letter
    → escape_str m (letter ∷ cs) ≡ Escape.pushed (b ∷ []) cs
unfolding escape_str
escape_lem m b letter cs h = elim (Bool-cases (b == 0)) [
  | inl e ↦
      let same : b ≡ 0 = ground arith in let l : letter ≡ 48 = ground arith in rw (same, l) refl
  | inr e ↦ elim (Bool-cases (b == 34)) [
    | inl f ↦
        let same : b ≡ 34 = ground arith in let l : letter ≡ 34 = ground arith in rw (same, l) refl
    | inr f ↦ elim (Bool-cases (b == 92)) [
      | inl g ↦
          let same : b ≡ 92 = ground arith in
          let l : letter ≡ 92 = ground arith in rw (same, l) refl
      | inr g ↦
          let same : b ≡ 10 = ground arith in
          let l : letter ≡ 110 = ground arith in rw (same, l) refl
    ]
  ]
]

-- The first byte with a meaning of its own ends the same bytes in the printed text as in `bs`.
record Chunk (bs rest : List ℕ) : Type 0 where
  count : ℕ
  found : first is_special (quote bs ++ (34 ∷ rest)) ≡ some count
  before : take count (quote bs ++ (34 ∷ rest)) ≡ take count bs
  after : drop count (quote bs ++ (34 ∷ rest)) ≡ quote (drop count bs) ++ (34 ∷ rest)

Chunk-all : (bs rest : List ℕ) → Chunk bs rest
unfolding first quote
Chunk-all [] rest = record { count = 0; found = refl; before = refl; after = refl }
Chunk-all (b ∷ bs) rest = elim (Option-cases (escape_of b)) [
  | inl e ↦
      let ih = Chunk-all bs rest in
      let plain = plain_lem b e in
      let ordinary : is_special b ≡ false = ground arith in
      record {
        count = suc (ih.count);
        found = rw (e, ordinary) (ap next_index (ih.found));
        before = rw e (ap (λ xs. b ∷ xs) (ih.before));
        after = rw e (ih.after);
      }
  | inr (letter, e) ↦ record { count = 0; found = rw e refl; before = refl; after = refl }
]

append_nil : (xs : List ℕ) → xs ++ [] ≡ xs
append_nil [] = refl
append_nil (x ∷ xs) = ap (λ ys. x ∷ ys) (append_nil xs)

module _ (m : Memx) (law : IsMemx m) where
  str-plain :
      (fuel : ℕ) (pad : List ℕ) (b : ℕ) (cs : List ℕ)
      → escape_of b ≡ none
      → str m (suc fuel) pad (b ∷ cs)
        ≡ str m fuel
            (pad ++ (b ∷ take (eat_until3 m cs 34 92 10) cs))
            (drop (eat_until3 m cs 34 92 10) cs)
  unfolding str str_turn
  str-plain fuel pad b cs e = let (z, n, q, s) = plain_lem b e in rw (z, n, q, s) refl

  str-escape :
      (fuel : ℕ) (pad : List ℕ) (b letter : ℕ) (cs : List ℕ)
      → escape_of b ≡ some letter
      → str m (suc fuel) pad (92 ∷ letter ∷ cs) ≡ str m fuel (pad ++ (b ∷ [])) cs
  unfolding str str_turn
  str-escape fuel pad b letter cs e =
      ap (λ x. str_settle (λ pad' cs'. str m fuel pad' cs') (escaped pad x))
        (escape_lem m b letter cs e)

  str-closing :
      (fuel : ℕ) (pad rest : List ℕ)
      → str m (suc fuel) pad (quote [] ++ (34 ∷ rest)) ≡ Str.closed (pad ++ []) rest
  unfolding str str_turn quote
  str-closing fuel pad rest = ap (λ xs. Str.closed xs rest) (sym (append_nil pad))

  Chunk-found :
      (bs rest : List ℕ) (ch : Chunk bs rest)
      → eat_until3 m (quote bs ++ (34 ∷ rest)) 34 92 10 ≡ ch.count
  Chunk-found bs rest ch =
      let text = quote bs ++ (34 ∷ rest) in
      ap (λ i. found_at i text)
        (IsFirst-first is_special text (m.memchr_tpl text 34 92 10) (law.tpl text 34 92 10)
          ∙ ch.found)

  -- The bytes up to the next one with a meaning of its own, in one turn.
  str-Chunk :
      (fuel : ℕ) (pad : List ℕ) (b : ℕ) (bs rest : List ℕ) (ch : Chunk bs rest)
      → escape_of b ≡ none
      → str m (suc fuel) pad (b ∷ (quote bs ++ (34 ∷ rest)))
        ≡ str m fuel (pad ++ (b ∷ take (ch.count) bs)) (quote (drop (ch.count) bs) ++ (34 ∷ rest))
  str-Chunk fuel pad b bs rest ch e =
      let text = quote bs ++ (34 ∷ rest) in
      str-plain fuel pad b text e
      ∙ ap (λ n. str m fuel (pad ++ (b ∷ take n text)) (drop n text)) (Chunk-found bs rest ch)
      ∙ ap₂ (λ xs ys. str m fuel (pad ++ (b ∷ xs)) ys) (ch.before) (ch.after)

  -- The state Str reads what the printer prints back, up to the closing quote, with more fuel than
  -- bytes.
  pub str-quote :
      (fuel : ℕ) (bs pad rest : List ℕ)
      → length bs < fuel
      → str m fuel pad (quote bs ++ (34 ∷ rest)) ≡ Str.closed (pad ++ bs) rest
  unfolding quote
  str-quote zero bs pad rest lt = absurd (omega arith)
  str-quote (suc fuel) [] pad rest lt = str-closing fuel pad rest
  str-quote (suc fuel) (b ∷ bs) pad rest lt = elim (Option-cases (escape_of b)) [
    | inl e ↦
        let ch = Chunk-all bs rest in
        let n = ch.count in
        let ih =
          str-quote fuel (drop n bs) (pad ++ (b ∷ take n bs)) rest
            (omega (arith, length-drop {0} n bs)) in
        rw e (
          str-Chunk fuel pad b bs rest ch e
          ∙ ih
          ∙ ap (λ xs. Str.closed xs rest)
              (append_assoc pad (b ∷ take n bs) (drop n bs)
                ∙ ap (λ xs. pad ++ (b ∷ xs)) (take-append-drop n bs)))
    | inr (letter, e) ↦ rw e (
        str-escape fuel pad b letter (quote bs ++ (34 ∷ rest)) e
        ∙ str-quote fuel bs (pad ++ (b ∷ [])) rest (omega arith)
        ∙ ap (λ xs. Str.closed xs rest) (append_assoc pad (b ∷ []) bs))
  ]
