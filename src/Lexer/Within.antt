-- ===== src/Lexer/Within.antt =====
-- What is left of a text of the lexer: no more than the text, with the NUL at its end.
use vif.Prelude.{
  refl, sym, ◌∙◌, ap, ◌+◌, ℕ, zero, suc, ◌-◌, ◌≤◌, ◌<◌, List, [], ◌∷◌, Bool, ◌==◌, Option, none,
  some, length, drop, get_elem?, ◌≡◌, ◌≢◌, arith, inl, inr, Bool-cases, length-drop,
}
use vif.Lexer.Memx.{IsFirst}
use vif.Lexer.Literals.{EndsNul, EndsNul-tail}
use vif.Lexer.Strings.{to_end, found_at, after_quote, recovered}

drop_nil : (n : ℕ) → drop {A = ℕ} n [] ≡ []
drop_nil zero = refl
drop_nil (suc n) = refl

-- The rest is the end of the text from some byte on, with the NUL.
pub record Within (cs rest : List ℕ) : Type 0 where
  pub skipped : ℕ
  pub suffix : rest ≡ drop skipped cs
  pub shorter : length rest ≤ length cs
  pub ends : EndsNul rest

pub Within-refl : (cs : List ℕ) → EndsNul cs → Within cs cs
Within-refl cs h = record { skipped = 0; suffix = refl; shorter = omega arith; ends = h }

drop-drop : (i j : ℕ) (cs : List ℕ) → drop j (drop i cs) ≡ drop (i + j) cs
drop-drop zero j cs = ap (λ n. drop n cs) (omega arith)
drop-drop (suc i) j (c ∷ cs) =
    let e : suc (i + j) ≡ suc i + j = omega arith in drop-drop i j cs ∙ ap (λ n. drop n (c ∷ cs)) e
drop-drop (suc i) zero [] = sym (drop_nil (suc i + zero))
drop-drop (suc i) (suc j) [] = sym (drop_nil (suc i + suc j))

pub Within-trans : (xs ys zs : List ℕ) → Within xs ys → Within ys zs → Within xs zs
Within-trans xs ys zs h k = record {
  skipped = h.skipped + k.skipped;
  suffix = k.suffix ∙ ap (drop (k.skipped)) (h.suffix) ∙ drop-drop (h.skipped) (k.skipped) xs;
  shorter = omega (arith, h.shorter, k.shorter);
  ends = k.ends;
}

pub Within-tail : (c : ℕ) (cs : List ℕ) → EndsNul (c ∷ cs) → c ≢ 0 → Within (c ∷ cs) cs
Within-tail c cs h ne = record {
  skipped = 1;
  suffix = refl;
  shorter = omega arith;
  ends = EndsNul-tail c cs h ne;
}

pub Within-cons : (c : ℕ) (cs : List ℕ) → EndsNul cs → Within (c ∷ cs) cs
Within-cons c cs h = record { skipped = 1; suffix = refl; shorter = omega arith; ends = h }

pub Within-later : (c : ℕ) (cs rest : List ℕ) → Within cs rest → Within (c ∷ cs) rest
Within-later c cs rest h = record {
  skipped = suc (h.skipped);
  suffix = h.suffix;
  shorter = omega (arith, h.shorter);
  ends = h.ends;
}

pub EndsNul-drop : (i : ℕ) (cs : List ℕ) → EndsNul cs → i < length cs → EndsNul (drop i cs)
EndsNul-drop zero cs h lt = h
EndsNul-drop (suc i) [] h lt = absurd h
EndsNul-drop (suc i) (c ∷ []) h lt = absurd (omega arith)
EndsNul-drop (suc i) (c ∷ d ∷ cs) h lt = EndsNul-drop i (d ∷ cs) h (omega arith)

pub Within-drop : (i : ℕ) (cs : List ℕ) → EndsNul cs → i < length cs → Within cs (drop i cs)
Within-drop i cs h lt = record {
  skipped = i;
  suffix = refl;
  shorter = omega (arith, length-drop {0} i cs);
  ends = EndsNul-drop i cs h lt;
}

pub EndsNul-length : (cs : List ℕ) → EndsNul cs → 0 < length cs
EndsNul-length [] h = absurd h
EndsNul-length (c ∷ cs) h = omega arith

pub Within-to_end : (cs : List ℕ) → EndsNul cs → Within cs (to_end cs)
Within-to_end cs h = Within-drop (length cs - 1) cs h (omega (arith, EndsNul-length cs h))

pub get_elem?-length : (cs : List ℕ) (i c : ℕ) → get_elem? cs i ≡ some c → i < length cs
get_elem?-length [] i c h = absurd cc
get_elem?-length (d ∷ cs) zero c h = omega arith
get_elem?-length (d ∷ cs) (suc i) c h = omega (arith, get_elem?-length cs i c h)

Within-after_quote : (cs : List ℕ) → EndsNul cs → Within cs (after_quote cs)
Within-after_quote [] h = absurd h
Within-after_quote (c ∷ cs) h = elim (Bool-cases (c == 34)) [
  | inl e ↦ rw e (Within-tail c cs h (λ z. ground arith))
  | inr e ↦ rw e (Within-refl (c ∷ cs) h)
]

pub found_lem :
    (test : ℕ → Bool) (i? : Option ℕ) (cs : List ℕ)
    → IsFirst test cs i?
    → EndsNul cs
    → found_at i? cs < length cs
found_lem test none cs h n = omega (arith, EndsNul-length cs n)
found_lem test (some i) cs (c, before, at, hit) n = get_elem?-length cs i c at

pub Within-recovered :
    (test : ℕ → Bool) (i? : Option ℕ) (cs : List ℕ)
    → IsFirst test cs i?
    → EndsNul cs
    → Within cs (recovered i? cs)
Within-recovered test none cs h n = Within-to_end cs n
Within-recovered test (some i) cs h n =
    let d = Within-drop i cs n (found_lem test (some i) cs h n) in
    Within-trans cs (drop i cs) (after_quote (drop i cs)) d (Within-after_quote (drop i cs) d.ends)
