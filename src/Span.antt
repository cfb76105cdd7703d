-- ===== src/Span.antt =====
-- src/common/span.rs and src/common/non_max_u32.rs: regions of a source text, with the line and the
-- column of their ends. The crate memx is a parameter.
use vif.Prelude.{
  ℕ, zero, suc, ◌+◌, ◌-◌, ◌≤◌, ◌<◌, ◌%◌, ◌^◌, List, [], ◌∷◌, Bool, true, false, ◌==◌, ltb,
  if◌then◌else◌, Option, none, some, length, take, drop, ◌≡◌, refl, sym, ap, ◌∙◌, arith, inl, inr,
  Bool-cases, Option-cases, length-drop, length-take,
}
use mathlib.Core.Path.{subst}
use vif.Lexer.Memx.{Memx, IsMemx, first, choose, next_index, IsFirst-first, is_byte}
pub mod Tests

pub record Span : Type 0 where
  pub start : ℕ
  pub end : ℕ

-- `NonMaxU32::from(usize)`, which keeps 32 bits; the greatest number is assumed away.
abbrev pub non_max_u32 : ℕ → ℕ
non_max_u32 n = n % 2 ^ 32

-- `Span::new`
abbrev pub span_of : ℕ → ℕ → Span
span_of start end = record { start = non_max_u32 start; end = non_max_u32 end }

-- `Span::len`; the difference below zero is a panic.
abbrev pub span_len : Span → Option ℕ
span_len s = if ltb (s.end) (s.start) then none else some (s.end - s.start)

-- The loop of `line_col`, on the bytes from the start of a line to the offset, on fuel.
abbrev pub line_found : (List ℕ → Option (ℕ × ℕ)) → ℕ → List ℕ → Option ℕ → Option (ℕ × ℕ)
line_found more line cs none = some (line, length cs)
line_found more line cs (some pos) = more (drop (suc pos) cs)

unfoldable pub line_loop : Memx → ℕ → ℕ → List ℕ → Option (ℕ × ℕ)
line_loop m zero line cs = none
line_loop m (suc fuel) line cs =
    line_found (λ rest. line_loop m fuel (suc line) rest) line cs (m.memchr cs 10)

-- `line_col`, with nothing for an offset past the text, where the slice panics.
unfoldable pub line_col : Memx → List ℕ → ℕ → Option (ℕ × ℕ)
line_col m bytes offset =
    if ltb (length bytes) offset
    then none
    else line_loop m (suc (length bytes)) 1 (take offset bytes)

unfoldable pub start_line_col : Memx → List ℕ → Span → Option (ℕ × ℕ)
start_line_col m bytes s = line_col m bytes (s.start)

unfoldable pub end_line_col : Memx → List ℕ → Span → Option (ℕ × ℕ)
end_line_col m bytes s = line_col m bytes (s.end)

-- The line feeds of a text, and the bytes after the last of them.
abbrev pub line_feeds : List ℕ → ℕ
line_feeds [] = 0
line_feeds (c ∷ cs) = if c == 10 then suc (line_feeds cs) else line_feeds cs

abbrev pub column_from : ℕ → List ℕ → ℕ
column_from n [] = n
column_from n (c ∷ cs) = column_from (if c == 10 then 0 else suc n) cs

-- What a search for the next line feed tells.
abbrev Counts : List ℕ → ℕ → Option ℕ → Type 0
Counts cs n none = (line_feeds cs ≡ 0) × (column_from n cs ≡ n + length cs)
Counts cs n (some pos) =
    (pos < length cs)
    × (line_feeds cs ≡ suc (line_feeds (drop (suc pos) cs)))
    × (column_from n cs ≡ column_from 0 (drop (suc pos) cs))

Counts-cons :
    (c : ℕ) (cs : List ℕ) (n : ℕ) (i? : Option ℕ)
    → (c == 10) ≡ false
    → Counts cs (suc n) i?
    → Counts (c ∷ cs) n (next_index i?)
Counts-cons c cs n none e h = (rw e h.0, rw e (omega (arith, h.1)))
Counts-cons c cs n (some pos) e h = (omega (arith, h.0), rw e h.1, rw e h.2)

first-Counts : (cs : List ℕ) (n : ℕ) → Counts cs n (first (is_byte 10) cs)
unfolding first
first-Counts [] n = (refl, omega arith)
first-Counts (c ∷ cs) n = elim (Bool-cases (c == 10)) [
  | inl e ↦ rw e (omega arith, rw e refl, rw e refl)
  | inr e ↦ rw e (Counts-cons c cs n (first (is_byte 10) cs) e (first-Counts cs (suc n)))
]

module _ (m : Memx) (law : IsMemx m) where
  line_found_lem :
      (fuel line : ℕ) (cs : List ℕ) (i? : Option ℕ)
      → ((rest : List ℕ)
          → length rest < fuel
          → line_loop m fuel (suc line) rest
            ≡ some (suc line + line_feeds rest, column_from 0 rest))
      → Counts cs 0 i?
      → length cs < suc fuel
      → line_found (λ rest. line_loop m fuel (suc line) rest) line cs i?
        ≡ some (line + line_feeds cs, column_from 0 cs)
  line_found_lem fuel line cs none ih h lt =
      let row : line ≡ line + line_feeds cs = omega (arith, h.0) in
      let col : length cs ≡ column_from 0 cs = omega (arith, h.1) in cc
  line_found_lem fuel line cs (some pos) ih h lt =
      let rest = drop (suc pos) cs in
      let row : suc line + line_feeds rest ≡ line + line_feeds cs = omega (arith, h.1) in
      let e = ih rest (omega (arith, length-drop {0} (suc pos) cs, h.0)) in let col = h.2 in cc

  line_loop_lem :
      (fuel line : ℕ) (cs : List ℕ)
      → length cs < fuel
      → line_loop m fuel line cs ≡ some (line + line_feeds cs, column_from 0 cs)
  unfolding line_loop
  line_loop_lem zero line cs lt = absurd (omega arith)
  line_loop_lem (suc fuel) line cs lt =
      line_found_lem fuel line cs (m.memchr cs 10)
        (λ rest less. line_loop_lem fuel (suc line) rest less)
        (subst (Counts cs 0) (sym (IsFirst-first (is_byte 10) cs (m.memchr cs 10) (law.chr cs 10)))
          (first-Counts cs 0))
        lt

  -- For an offset in the text, the line is one more than the line feeds before it, and the column
  -- the number of bytes between the last of these, or the start of the text, and the offset.
  pub line_col_lem :
      (bytes : List ℕ) (offset : ℕ)
      → offset ≤ length bytes
      → line_col m bytes offset
        ≡ some (1 + line_feeds (take offset bytes), column_from 0 (take offset bytes))
  unfolding line_col
  line_col_lem bytes offset h =
      let inside : ltb (length bytes) offset ≡ false = ground arith in
      rw inside (
        line_loop_lem (suc (length bytes)) 1 (take offset bytes)
          (omega (arith, length-take {0} offset bytes)))
