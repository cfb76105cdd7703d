-- ===== src/Anyint/Compare.antt =====
-- src/int.rs: comparison of magnitudes, `abs_cmp` and `abs_cmp_pow2`.
use vif.Prelude.{
  ℕ, ◌<◌, List, [], ◌∷◌, ◌++◌, ◌≡◌, refl, sym, ap, ap₂, ◌∙◌, arith, length, length-append, compare,
  Ordering, reverse,
}
use mathlib.Core.List.{reverse-append}
use Prim.Native.Nat.{lt, eq, gt}
use vif.Anyint.Limbs.{IsLimbs, IsTrimmed, value}

-- `match first { Equal => second, order => order }`
abbrev pub then_with : Ordering → Ordering → Ordering
then_with eq second = second
then_with lt second = lt
then_with gt second = gt

-- `Iterator::cmp` of two iterators over words.
unfoldable pub iter_cmp : List ℕ → List ℕ → Ordering
iter_cmp [] [] = eq
iter_cmp [] (y ∷ ys) = lt
iter_cmp (x ∷ xs) [] = gt
iter_cmp (x ∷ xs) (y ∷ ys) = then_with (compare x y) (iter_cmp xs ys)

unfoldable pub abs_cmp : List ℕ → List ℕ → Ordering
unfolding iter_cmp
abs_cmp lhs rhs =
    then_with (compare (length lhs) (length rhs)) (iter_cmp (reverse lhs) (reverse rhs))

-- The same order from the least significant limb on, for limbs of one length.
low_cmp : List ℕ → List ℕ → Ordering
low_cmp [] [] = eq
low_cmp [] (y ∷ ys) = lt
low_cmp (x ∷ xs) [] = gt
low_cmp (x ∷ xs) (y ∷ ys) = then_with (low_cmp xs ys) (compare x y)

then_with_assoc : (a b c : Ordering) → then_with (then_with a b) c ≡ then_with a (then_with b c)
then_with_assoc lt b c = refl
then_with_assoc eq b c = refl
then_with_assoc gt b c = refl

iter_cmp-concat :
    (xs ys : List ℕ) (x y : ℕ)
    → length xs ≡ length ys
    → iter_cmp (xs ++ x ∷ []) (ys ++ y ∷ []) ≡ then_with (iter_cmp xs ys) (compare x y)
unfolding iter_cmp
iter_cmp-concat [] [] x y e = ground arith
iter_cmp-concat [] (b ∷ ys) x y e = absurd (omega arith)
iter_cmp-concat (a ∷ xs) [] x y e = absurd (omega arith)
iter_cmp-concat (a ∷ xs) (b ∷ ys) x y e =
    ap (then_with (compare a b)) (iter_cmp-concat xs ys x y (omega arith))
    ∙ sym (then_with_assoc (compare a b) (iter_cmp xs ys) (compare x y))

reverse-cons : (x : ℕ) (xs : List ℕ) → reverse (x ∷ xs) ≡ reverse xs ++ x ∷ []
reverse-cons x xs = reverse-append (x ∷ []) xs

length-reverse : (xs : List ℕ) → length (reverse xs) ≡ length xs
length-reverse [] = refl
length-reverse (x ∷ xs) =
    ap length (reverse-cons x xs)
    ∙ omega (arith, length-append (reverse xs) (x ∷ []), length-reverse xs)

iter_cmp-reverse :
    (xs ys : List ℕ) → length xs ≡ length ys → iter_cmp (reverse xs) (reverse ys) ≡ low_cmp xs ys
unfolding low_cmp
iter_cmp-reverse [] [] e = unfold iter_cmp in refl
iter_cmp-reverse [] (b ∷ ys) e = absurd (omega arith)
iter_cmp-reverse (a ∷ xs) [] e = absurd (omega arith)
iter_cmp-reverse (a ∷ xs) (b ∷ ys) e =
    ap₂ iter_cmp (reverse-cons a xs) (reverse-cons b ys)
    ∙ iter_cmp-concat (reverse xs) (reverse ys) a b
        (omega (arith, length-reverse xs, length-reverse ys))
    ∙ ap (λ o. then_with o (compare a b)) (iter_cmp-reverse xs ys (omega arith))

low_cmp_lem :
    (xs ys : List ℕ)
    → length xs ≡ length ys
    → IsLimbs xs
    → IsLimbs ys
    → low_cmp xs ys ≡ compare (value xs) (value ys)
unfolding low_cmp
low_cmp_lem [] [] e h k = ground arith
low_cmp_lem [] (b ∷ ys) e h k = absurd (omega arith)
low_cmp_lem (a ∷ xs) [] e h k = absurd (omega arith)
low_cmp_lem (a ∷ xs) (b ∷ ys) e h k = rw (low_cmp_lem xs ys (omega arith) h.1 k.1) (ground arith)

pub value_pos_of_IsTrimmed : (x : ℕ) (xs : List ℕ) → IsTrimmed (x ∷ xs) → 0 < value (x ∷ xs)
value_pos_of_IsTrimmed x [] h = omega arith
value_pos_of_IsTrimmed x (y ∷ ys) h = omega (arith, value_pos_of_IsTrimmed y ys h)

-- Fewer limbs, less value.
pub value-lt_of_shorter :
    (xs ys : List ℕ) → length xs < length ys → IsLimbs xs → IsTrimmed ys → value xs < value ys
value-lt_of_shorter xs [] l h k = elim l [ ]
value-lt_of_shorter [] (y ∷ ys) l h k = value_pos_of_IsTrimmed y ys k
value-lt_of_shorter (x ∷ xs) (y ∷ []) l h k = absurd (omega arith)
value-lt_of_shorter (x ∷ xs) (y ∷ z ∷ ys) l h k =
    omega (arith, value-lt_of_shorter xs (z ∷ ys) (omega arith) h.1 k, h.0)

-- On trimmed limbs `abs_cmp` is the order of the numbers.
pub abs_cmp_lem :
    (lhs rhs : List ℕ)
    → IsLimbs lhs
    → IsLimbs rhs
    → IsTrimmed lhs
    → IsTrimmed rhs
    → abs_cmp lhs rhs ≡ compare (value lhs) (value rhs)
unfolding abs_cmp
abs_cmp_lem lhs rhs il ir tl tr = go (compare (length lhs) (length rhs)) refl
  where
    go :
        (o : Ordering)
        → compare (length lhs) (length rhs) ≡ o
        → then_with o (iter_cmp (reverse lhs) (reverse rhs)) ≡ compare (value lhs) (value rhs)
    go lt e =
        let shorter : length lhs < length rhs = ground arith in
        ground (arith, value-lt_of_shorter lhs rhs shorter il tr)
    go gt e =
        let longer : length rhs < length lhs = ground arith in
        ground (arith, value-lt_of_shorter rhs lhs longer ir tl)
    go eq e =
        let same : length lhs ≡ length rhs = ground arith in
        iter_cmp-reverse lhs rhs same ∙ low_cmp_lem lhs rhs same il ir
