-- ===== src/Lexer/StringEnds.antt =====
-- A string of the lexer ends, with or without a diagnostic, before the end of the buffer.
use vif.Prelude.{
  drop, ℕ, zero, suc, ◌<◌, List, [], ◌∷◌, not, ◌&&◌, ◌==◌, ltb, leb, if◌then◌else◌, length, ◌≡◌,
  refl, arith, inl, inr, Bool-cases,
}
use vif.Lexer.Memx.{Memx, IsMemx, is_one_of3}
use vif.Lexer.Literals.{EndsNul, EndsNul-tail}
use vif.Lexer.Strings.{
  StrDiag, Str, Escape, to_end, eat_until3, recover, is_newline, unread_newline, is_hexdigit,
  hex_resume, hex_low, hex_escape, is_scalar, code_done, push_hex, code_loop, unicode_resume,
  unicode_escape, simple_escapes, on_simple, escape_str, StrTurn, escaped, str_turn, str_settle,
  str,
}
use vif.Lexer.Within.{
  Within-later, Within, Within-refl, Within-trans, Within-cons, Within-drop, Within-to_end,
  found_lem, Within-recovered,
}

module _ (m : Memx) (law : IsMemx m) where
  pub Within-recover : (cs : List ℕ) → EndsNul cs → Within cs (recover m cs)
  unfolding recover
  Within-recover cs n = elim (Bool-cases (leb (length cs) 1)) [
    | inl e ↦ rw e (Within-to_end cs n)
    | inr e ↦ rw e (
        Within-recovered (is_one_of3 34 10 13) (m.memchr_tpl cs 34 10 13) cs (law.tpl cs 34 10 13)
          n)
  ]

  -- An escape leaves a rest of the text.
  abbrev Leaves : List ℕ → Escape → Type 0
  Leaves cs (Escape.pushed bytes rest) = Within cs rest
  Leaves cs (Escape.wrong d rest) = Within cs rest
  Leaves cs Escape.overrun = ⊥

  recovers : (cs mid : List ℕ) → Within cs mid → Within cs (recover m mid)
  recovers cs mid h = Within-trans cs mid (recover m mid) h (Within-recover mid h.ends)

  Within-unread :
      (c : ℕ) (cs : List ℕ) → EndsNul (c ∷ cs) → EndsNul cs → Within (c ∷ cs) (unread_newline c cs)
  Within-unread c cs n t = elim (Bool-cases (is_newline c)) [
    | inl e ↦ rw e (Within-refl (c ∷ cs) n)
    | inr e ↦ rw e (Within-cons c cs t)
  ]

  Within-hex_resume :
      (hi lo : ℕ) (cs : List ℕ) → EndsNul (lo ∷ cs) → Within (hi ∷ lo ∷ cs) (hex_resume hi lo cs)
  Within-hex_resume hi lo cs n =
      let step = Within-cons hi (lo ∷ cs) n in
      elim (Bool-cases (lo == 0)) [
        | inl e ↦ rw e (
            Within-trans (hi ∷ lo ∷ cs) (lo ∷ cs) (to_end (lo ∷ cs)) step
              (Within-to_end (lo ∷ cs) n))
        | inr e ↦ rw e (elim (Bool-cases (is_newline hi)) [
          | inl f ↦ rw f (Within-refl (hi ∷ lo ∷ cs) n)
          | inr f ↦ rw f (
              Within-trans (hi ∷ lo ∷ cs) (lo ∷ cs) (unread_newline lo cs) step
                (Within-unread lo cs n (EndsNul-tail lo cs n (λ z. ground arith))))
        ])
      ]

  hex_low-Leaves : (hi : ℕ) (cs : List ℕ) → EndsNul cs → Leaves (hi ∷ cs) (hex_low m hi cs)
  hex_low-Leaves hi [] n = absurd n
  hex_low-Leaves hi (lo ∷ cs) n = elim (Bool-cases (is_hexdigit hi && is_hexdigit lo)) [
    | inl e ↦
        let t = EndsNul-tail lo cs n (λ z. ground arith) in
        rw e (record { skipped = 2; suffix = refl; shorter = omega arith; ends = t })
    | inr e ↦ rw e (recovers (hi ∷ lo ∷ cs) (hex_resume hi lo cs) (Within-hex_resume hi lo cs n))
  ]

  hex_escape-Leaves : (cs : List ℕ) → EndsNul cs → Leaves cs (hex_escape m cs)
  unfolding hex_escape
  hex_escape-Leaves [] n = absurd n
  hex_escape-Leaves (hi ∷ cs) n = elim (Bool-cases (hi == 0)) [
    | inl e ↦ rw e (recovers (hi ∷ cs) (to_end (hi ∷ cs)) (Within-to_end (hi ∷ cs) n))
    | inr e ↦ rw e (hex_low-Leaves hi cs (EndsNul-tail hi cs n (λ z. ground arith)))
  ]

  code_done-Leaves :
      (code count : ℕ) (cs : List ℕ) → EndsNul cs → Leaves cs (code_done m code count cs)
  code_done-Leaves code count cs n = elim (Bool-cases (not (ltb 6 count) && is_scalar code)) [
    | inl e ↦ rw e (Within-refl cs n)
    | inr e ↦ rw e (Within-recover cs n)
  ]

  Leaves-tail : (c : ℕ) (cs : List ℕ) (x : Escape) → Leaves cs x → Leaves (c ∷ cs) x
  Leaves-tail c cs (Escape.pushed bytes rest) h = Within-later c cs rest h
  Leaves-tail c cs (Escape.wrong d rest) h = Within-later c cs rest h
  Leaves-tail c cs Escape.overrun h = h

  code_loop-Leaves :
      (code count : ℕ) (cs : List ℕ) → EndsNul cs → Leaves cs (code_loop m code count cs)
  unfolding code_loop
  code_loop-Leaves code count [] n = absurd n
  code_loop-Leaves code count (c ∷ []) n =
      let zero_byte : c ≡ 0 = n in
      rw zero_byte (recovers (0 ∷ []) (0 ∷ []) (Within-refl (0 ∷ []) refl))
  code_loop-Leaves code count (c ∷ d ∷ cs) n =
      let ih = code_loop-Leaves (push_hex code c) (suc count) (d ∷ cs) n in
      elim (Bool-cases (c == 125)) [
        | inl e ↦ rw e (
            Leaves-tail c (d ∷ cs) (code_done m code count (d ∷ cs))
              (code_done-Leaves code count (d ∷ cs) n))
        | inr e ↦ rw e (elim (Bool-cases (is_hexdigit c)) [
          | inl f ↦
              rw f (Leaves-tail c (d ∷ cs) (code_loop m (push_hex code c) (suc count) (d ∷ cs)) ih)
          | inr f ↦
              rw f
                (recovers (c ∷ d ∷ cs) (unread_newline c (d ∷ cs)) (Within-unread c (d ∷ cs) n n))
        ])
      ]

  Within-unicode_resume :
      (c : ℕ) (cs : List ℕ) → EndsNul (c ∷ cs) → Within (c ∷ cs) (unicode_resume c cs)
  Within-unicode_resume c [] n = Within-refl (c ∷ []) n
  Within-unicode_resume c (d ∷ cs) n = Within-unread c (d ∷ cs) n n

  unicode_escape-Leaves : (cs : List ℕ) → EndsNul cs → Leaves cs (unicode_escape m cs)
  unfolding unicode_escape
  unicode_escape-Leaves [] n = absurd n
  unicode_escape-Leaves (c ∷ cs) n = elim (Bool-cases (c == 123)) [
    | inl e ↦
        let t = EndsNul-tail c cs n (λ z. ground arith) in
        rw e (Leaves-tail c cs (code_loop m 0 0 cs) (code_loop-Leaves 0 0 cs t))
    | inr e ↦ rw e (recovers (c ∷ cs) (unicode_resume c cs) (Within-unicode_resume c cs n))
  ]

  on_simple-Leaves :
      (table : List (ℕ × ℕ)) (c : ℕ) (cs : List ℕ) (other : Escape)
      → EndsNul cs
      → Leaves (c ∷ cs) other
      → Leaves (c ∷ cs) (on_simple table c cs other)
  on_simple-Leaves [] c cs other n h = h
  on_simple-Leaves ((letter, byte) ∷ table) c cs other n h = elim (Bool-cases (c == letter)) [
    | inl e ↦ rw e (Within-cons c cs n)
    | inr e ↦ rw e (on_simple-Leaves table c cs other n h)
  ]

  other-Leaves :
      (c : ℕ) (cs : List ℕ)
      → EndsNul (c ∷ cs)
      → EndsNul cs
      → Leaves (c ∷ cs) (
          if c == 120
          then hex_escape m cs
          else if c == 117
          then unicode_escape m cs
          else Escape.wrong StrDiag.invalid_escape (recover m (unread_newline c cs)))
  other-Leaves c cs n t = elim (Bool-cases (c == 120)) [
    | inl e ↦ rw e (Leaves-tail c cs (hex_escape m cs) (hex_escape-Leaves cs t))
    | inr e ↦ rw e (elim (Bool-cases (c == 117)) [
      | inl f ↦ rw f (Leaves-tail c cs (unicode_escape m cs) (unicode_escape-Leaves cs t))
      | inr f ↦ rw f (recovers (c ∷ cs) (unread_newline c cs) (Within-unread c cs n t))
    ])
  ]

  escape_str-Leaves : (cs : List ℕ) → EndsNul cs → Leaves cs (escape_str m cs)
  unfolding escape_str
  escape_str-Leaves [] n = absurd n
  escape_str-Leaves (c ∷ cs) n = elim (Bool-cases (c == 0)) [
    | inl e ↦ rw e (recovers (c ∷ cs) (to_end (c ∷ cs)) (Within-to_end (c ∷ cs) n))
    | inr e ↦
        let t = EndsNul-tail c cs n (λ z. ground arith) in
        rw e (on_simple-Leaves simple_escapes c cs _ t (other-Leaves c cs n t))
  ]

  -- The string ends in the text.
  abbrev pub StrEnds : List ℕ → Str → Type 0
  StrEnds cs (Str.closed bytes rest) = Within cs rest
  StrEnds cs (Str.broken d rest) = Within cs rest
  StrEnds cs Str.overrun = ⊥

  -- A turn ends, or goes on with less text.
  abbrev TurnEnds : List ℕ → StrTurn → Type 0
  TurnEnds cs (StrTurn.ended s) = StrEnds cs s
  TurnEnds cs (StrTurn.again pad rest) = Within cs rest × (length rest < length cs)

  escaped-TurnEnds :
      (pad : List ℕ) (c : ℕ) (cs : List ℕ) (x : Escape)
      → Leaves cs x
      → TurnEnds (c ∷ cs) (escaped pad x)
  escaped-TurnEnds pad c cs (Escape.pushed bytes rest) h =
      (Within-later c cs rest h, omega (arith, h.shorter))
  escaped-TurnEnds pad c cs (Escape.wrong d rest) h = Within-later c cs rest h
  escaped-TurnEnds pad c cs Escape.overrun h = h

  str_turn-TurnEnds :
      (pad : List ℕ) (c : ℕ) (cs : List ℕ)
      → EndsNul (c ∷ cs)
      → TurnEnds (c ∷ cs) (str_turn m pad c cs)
  unfolding str_turn
  str_turn-TurnEnds pad c cs n = elim (Bool-cases (c == 0)) [
    | inl e ↦ rw e (recovers (c ∷ cs) (to_end (c ∷ cs)) (Within-to_end (c ∷ cs) n))
    | inr e ↦
        let t = EndsNul-tail c cs n (λ z. ground arith) in
        rw e (elim (Bool-cases (c == 10)) [
          | inl f ↦ rw f (Within-cons c cs t)
          | inr f ↦ rw f (elim (Bool-cases (c == 34)) [
            | inl f ↦ rw f (Within-cons c cs t)
            | inr f ↦ rw f (elim (Bool-cases (c == 92)) [
              | inl f ↦ rw f (escaped-TurnEnds pad c cs (escape_str m cs) (escape_str-Leaves cs t))
              | inr f ↦
                  let found =
                    found_lem (is_one_of3 34 92 10) (m.memchr_tpl cs 34 92 10) cs
                      (law.tpl cs 34 92 10) t in
                  let d = Within-drop (eat_until3 m cs 34 92 10) cs t found in
                  rw f (
                    Within-later c cs (drop (eat_until3 m cs 34 92 10) cs) d,
                    omega (arith, d.shorter),
                  )
            ])
          ])
        ])
  ]

  StrEnds-longer : (cs ds : List ℕ) (s : Str) → Within cs ds → StrEnds ds s → StrEnds cs s
  StrEnds-longer cs ds (Str.closed bytes rest) le h = Within-trans cs ds rest le h
  StrEnds-longer cs ds (Str.broken d rest) le h = Within-trans cs ds rest le h
  StrEnds-longer cs ds Str.overrun le h = h

  str_settle-StrEnds :
      (fuel : ℕ) (cs : List ℕ) (t : StrTurn)
      → ((pad ds : List ℕ) → EndsNul ds → length ds < fuel → StrEnds ds (str m fuel pad ds))
      → TurnEnds cs t
      → length cs < suc fuel
      → StrEnds cs (str_settle (λ pad ds. str m fuel pad ds) t)
  str_settle-StrEnds fuel cs (StrTurn.ended s) ih h lt = h
  str_settle-StrEnds fuel cs (StrTurn.again pad ds) ih h lt =
      StrEnds-longer cs ds (str m fuel pad ds) (h.0) (ih pad ds (h.0.ends) (omega (arith, h.1)))

  -- With more fuel than bytes, a string ends, closed or with a diagnostic, and the text after it is
  -- in the buffer.
  pub str-StrEnds :
      (fuel : ℕ) (pad cs : List ℕ) → EndsNul cs → length cs < fuel → StrEnds cs (str m fuel pad cs)
  unfolding str
  str-StrEnds zero pad cs n lt = absurd (omega arith)
  str-StrEnds (suc fuel) pad [] n lt = absurd n
  str-StrEnds (suc fuel) pad (c ∷ cs) n lt =
      str_settle-StrEnds fuel (c ∷ cs) (str_turn m pad c cs)
        (λ pad' ds k less. str-StrEnds fuel pad' ds k less) (str_turn-TurnEnds pad c cs n) lt
