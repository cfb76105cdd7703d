-- ===== src/Lexer/Comments.antt =====
-- src/frontend/lexer.rs: `eat_until_newline`, for comments and multi-line strings.
use vif.Prelude.{
  ℕ, zero, suc, List, [], ◌∷◌, ◌++◌, Bool, true, false, ◌==◌, if◌then◌else◌, Option, none, some,
  length, drop, ◌≡◌, ◌≢◌, refl, ap, ◌∙◌, arith,
}
use vif.Lexer.Memx.{Memx, IsMemx, is_one_of2, NoneOf, first, next_index, IsFirst-first}

-- One turn of the loop: it leaves the offset, or searches again from an offset.
pub data LineTurn : Type 0 where
  reached : List ℕ → LineTurn
  again : List ℕ → LineTurn

-- `offset + 1 < self.len && self.bytes[offset + 1] == b'\n'`
abbrev pub line_feed_next : List ℕ → Bool
line_feed_next [] = false
line_feed_next (d ∷ []) = false
line_feed_next (d ∷ e ∷ cs) = d == 10

-- At the byte that is found.
abbrev pub at_break : List ℕ → LineTurn
at_break [] = LineTurn.reached []
at_break (c ∷ cs) =
    if c == 10
    then LineTurn.reached (c ∷ cs)
    else LineTurn.again (if line_feed_next cs then cs else c ∷ cs)

abbrev pub line_turn : Option ℕ → List ℕ → LineTurn
line_turn none cs = LineTurn.reached cs
line_turn (some i) cs = at_break (drop i cs)

abbrev pub line_settle : (List ℕ → Option (List ℕ)) → LineTurn → Option (List ℕ)
line_settle more (LineTurn.reached cs) = some cs
line_settle more (LineTurn.again cs) = more cs

-- The loop, on fuel; nothing when the fuel is gone.
unfoldable pub eat_until_newline : Memx → ℕ → List ℕ → Option (List ℕ)
eat_until_newline m zero cs = none
eat_until_newline m (suc fuel) cs =
    line_settle (λ cs'. eat_until_newline m fuel cs') (line_turn (m.memchr_dbl cs 10 13) cs)

abbrev pub is_break : ℕ → Bool
is_break c = is_one_of2 10 13 c

first_break :
    (pre : List ℕ) (c : ℕ) (post : List ℕ)
    → NoneOf is_break pre
    → is_break c ≡ true
    → (first is_break (pre ++ (c ∷ post)) ≡ some (length pre))
      × (drop (length pre) (pre ++ (c ∷ post)) ≡ c ∷ post)
unfolding first
first_break [] c post h hit = (rw hit refl, refl)
first_break (x ∷ pre) c post h hit =
    let ih = first_break pre c post h.1 hit in (rw (h.0) (ap next_index ih.0), ih.1)

no_break : (cs : List ℕ) → NoneOf is_break cs → first is_break cs ≡ none
unfolding first
no_break [] h = refl
no_break (c ∷ cs) h = rw (h.0) (ap next_index (no_break cs h.1))

module _ (m : Memx) (law : IsMemx m) where
  found_break : (cs : List ℕ) → m.memchr_dbl cs 10 13 ≡ first is_break cs
  found_break cs = IsFirst-first is_break cs (m.memchr_dbl cs 10 13) (law.dbl cs 10 13)

  -- A turn that finds a break after `pre`.
  line_turn-break :
      (pre : List ℕ) (c : ℕ) (post : List ℕ)
      → NoneOf is_break pre
      → is_break c ≡ true
      → line_turn (m.memchr_dbl (pre ++ (c ∷ post)) 10 13) (pre ++ (c ∷ post)) ≡ at_break (c ∷ post)
  line_turn-break pre c post h hit =
      let f = first_break pre c post h hit in
      ap (λ i. line_turn i (pre ++ (c ∷ post))) (found_break (pre ++ (c ∷ post)) ∙ f.0)
      ∙ ap at_break f.1

  line_turn-none :
      (cs : List ℕ)
      → NoneOf is_break cs
      → line_turn (m.memchr_dbl cs 10 13) cs ≡ LineTurn.reached cs
  line_turn-none cs h = ap (λ i. line_turn i cs) (found_break cs ∙ no_break cs h)

  pub after_feed :
      (fuel : ℕ) (pre post : List ℕ)
      → NoneOf is_break pre
      → eat_until_newline m (suc fuel) (pre ++ (10 ∷ post)) ≡ some (10 ∷ post)
  unfolding eat_until_newline
  after_feed fuel pre post h =
      ap (line_settle (λ cs'. eat_until_newline m fuel cs')) (line_turn-break pre 10 post h refl)

  after_return :
      (fuel : ℕ) (pre : List ℕ) (d : ℕ) (post : List ℕ)
      → NoneOf is_break pre
      → eat_until_newline m (suc (suc fuel)) (pre ++ (13 ∷ 10 ∷ d ∷ post)) ≡ some (10 ∷ d ∷ post)
  after_return fuel pre d post h =
      unfold eat_until_newline in
      ap (line_settle (λ cs'. eat_until_newline m (suc fuel) cs'))
        (line_turn-break pre 13 (10 ∷ d ∷ post) h refl)
      ∙ after_feed fuel [] (d ∷ post) tt

  not_feed : (c : ℕ) (post : List ℕ) → c ≢ 10 → line_feed_next (c ∷ post) ≡ false
  not_feed c [] ne = refl
  not_feed c (d ∷ post) ne = ground arith

  -- The loop does not end at a carriage return that no line feed follows, on any fuel: it finds the
  -- same byte again.
  pub eat_until_newline-hangs :
      (fuel : ℕ) (pre : List ℕ) (c : ℕ) (post : List ℕ)
      → NoneOf is_break pre
      → c ≢ 10
      → eat_until_newline m fuel (pre ++ (13 ∷ c ∷ post)) ≡ none
  unfolding eat_until_newline
  eat_until_newline-hangs zero pre c post h ne = refl
  eat_until_newline-hangs (suc fuel) pre c post h ne =
      ap (line_settle (λ cs'. eat_until_newline m fuel cs')) (
        line_turn-break pre 13 (c ∷ post) h refl
        ∙ ap (λ b. LineTurn.again (if b then c ∷ post else 13 ∷ c ∷ post)) (not_feed c post ne))
      ∙ eat_until_newline-hangs fuel [] c post tt ne

  -- After bytes that break no line, the loop stops at a line feed, and at the line feed of a
  -- carriage return and line feed that is not the end of the buffer, within two turns.
  pub eat_until_newline_lem :
      (fuel : ℕ) (pre post : List ℕ)
      → NoneOf is_break pre
      → (eat_until_newline m (suc (suc fuel)) (pre ++ (10 ∷ post)) ≡ some (10 ∷ post))
        × ((d : ℕ)
            → eat_until_newline m (suc (suc fuel)) (pre ++ (13 ∷ 10 ∷ d ∷ post))
              ≡ some (10 ∷ d ∷ post))
  eat_until_newline_lem fuel pre post h =
      (after_feed (suc fuel) pre post h, λ d. after_return fuel pre d post h)

  -- With no break the offset stays where it is.
  pub eat_until_newline-no_break :
      (fuel : ℕ) (cs : List ℕ) → NoneOf is_break cs → eat_until_newline m (suc fuel) cs ≡ some cs
  unfolding eat_until_newline
  eat_until_newline-no_break fuel cs h =
      ap (line_settle (λ cs'. eat_until_newline m fuel cs')) (line_turn-none cs h)
