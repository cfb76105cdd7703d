-- ===== src/Lexer/Lines.antt =====
-- A text with no carriage return but before a line feed, on which `eat_until_newline` ends.
use vif.Prelude.{
  ℕ, zero, suc, List, [], ◌∷◌, true, ◌==◌, Option, none, some, drop, get_elem?, ◌≡◌, sym, ap, arith,
  inl, inr, Bool-cases,
}
use mathlib.Core.Path.{subst}
use vif.Lexer.Memx.{Memx, IsMemx, IsFirst}
use vif.Lexer.Literals.{EndsNul, EndsNul-tail}
use vif.Lexer.Within.{Within, Within-refl, Within-trans, Within-cons, Within-drop, found_lem}
use vif.Lexer.Comments.{
  line_feed_next, at_break, line_turn, line_settle, eat_until_newline, is_break, after_feed,
}

-- A carriage return is followed by a line feed, and not by the end of the text.
abbrev pub IsClean : List ℕ → Type 0
IsClean [] = Unit {0}
IsClean (c ∷ cs) = (c ≡ 13 → line_feed_next cs ≡ true) × IsClean cs

pub IsClean-drop : (i : ℕ) (cs : List ℕ) → IsClean cs → IsClean (drop i cs)
IsClean-drop zero cs h = h
IsClean-drop (suc i) [] h = tt
IsClean-drop (suc i) (c ∷ cs) h = IsClean-drop i cs h.1

pub IsClean-Within : (cs rest : List ℕ) → IsClean cs → Within cs rest → IsClean rest
IsClean-Within cs rest h w = subst IsClean (sym (w.suffix)) (IsClean-drop (w.skipped) cs h)

-- The end of a line.
abbrev pub Stops : List ℕ → Option (List ℕ) → Type 0
Stops cs none = ⊥
Stops cs (some rest) = Within cs rest

drop-get_elem? : (cs : List ℕ) (i c : ℕ) → get_elem? cs i ≡ some c → drop i cs ≡ c ∷ drop (suc i) cs
drop-get_elem? [] i c h = absurd cc
drop-get_elem? (d ∷ cs) zero c h = let same : d ≡ c = cc in ap (λ x. x ∷ cs) same
drop-get_elem? (d ∷ cs) (suc i) c h = drop-get_elem? cs i c h

Stops-trans : (cs ds : List ℕ) (r : Option (List ℕ)) → Within cs ds → Stops ds r → Stops cs r
Stops-trans cs ds none w h = h
Stops-trans cs ds (some rest) w h = Within-trans cs ds rest w h

module _ (m : Memx) (law : IsMemx m) where
  feed_lem :
      (fuel : ℕ) (cs : List ℕ)
      → EndsNul cs
      → line_feed_next cs ≡ true
      → Stops cs (eat_until_newline m (suc fuel) cs)
  feed_lem fuel [] n h = absurd n
  feed_lem fuel (d ∷ []) n h = absurd cc
  feed_lem fuel (d ∷ e ∷ cs) n h =
      let same : d ≡ 10 = ground arith in
      rw same (
        subst (Stops (10 ∷ e ∷ cs)) (sym (after_feed m law fuel [] (e ∷ cs) tt))
          (Within-refl (10 ∷ e ∷ cs) n))

  at_break_lem :
      (fuel c : ℕ) (cs : List ℕ)
      → EndsNul (c ∷ cs)
      → IsClean (c ∷ cs)
      → is_break c ≡ true
      → Stops (c ∷ cs) (line_settle (λ cs'. eat_until_newline m (suc fuel) cs') (at_break (c ∷ cs)))
  at_break_lem fuel c cs n clean hit = elim (Bool-cases (c == 10)) [
    | inl e ↦ rw e (Within-refl (c ∷ cs) n)
    | inr e ↦
        let same : c ≡ 13 = ground arith in
        let feed = clean.0 same in
        let tail = EndsNul-tail c cs n (λ z. omega (arith, same, z)) in
        rw (e, feed)
          (Stops-trans (c ∷ cs) cs _ (Within-cons c cs tail) (feed_lem fuel cs tail feed))
  ]

  line_turn_lem :
      (fuel : ℕ) (cs : List ℕ) (i? : Option ℕ)
      → EndsNul cs
      → IsClean cs
      → IsFirst is_break cs i?
      → Stops cs (line_settle (λ cs'. eat_until_newline m (suc fuel) cs') (line_turn i? cs))
  line_turn_lem fuel cs none n clean h = Within-refl cs n
  line_turn_lem fuel cs (some i) n clean h =
      let (c, before, at, hit) = h in
      let w = Within-drop i cs n (found_lem is_break (some i) cs h n) in
      let e = drop-get_elem? cs i c at in
      Stops-trans cs (drop i cs) _ w (
        subst
          (λ ds. Stops ds (line_settle (λ cs'. eat_until_newline m (suc fuel) cs') (at_break ds)))
          (sym e)
          (at_break_lem fuel c (drop (suc i) cs) (subst EndsNul e (w.ends))
            (subst IsClean e (IsClean-drop i cs clean)) hit))

  -- On a clean text two turns find the end of the line, or leave the text as it is.
  pub eat_until_newline-Stops :
      (cs : List ℕ) → EndsNul cs → IsClean cs → Stops cs (eat_until_newline m 2 cs)
  unfolding eat_until_newline
  eat_until_newline-Stops cs n clean =
      line_turn_lem 0 cs (m.memchr_dbl cs 10 13) n clean (law.dbl cs 10 13)
