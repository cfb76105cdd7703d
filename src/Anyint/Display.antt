-- ===== src/Anyint/Display.antt =====
-- src/int.rs: `Display`, the decimal text of an integer, and its round trip with `parse_radix`.
use vif.Prelude.{
  ℕ, zero, suc, ◌+◌, ◌*◌, ◌%◌, ◌^◌, ◌<◌, List, [], ◌∷◌, ◌++◌, reverse, length, Bool, true, false,
  ◌≡◌, refl, ap, ◌∙◌, arith, if◌then◌else◌, Option, none, some,
}
use mathlib.Core.List.{reverse-append}
use vif.Anyint.Compare.{value_pos_of_IsTrimmed}
use vif.Anyint.Limbs.{value-lt-span}
use vif.Anyint.Shift.{span-pow}
use mathlib.Core.Path.{subst}
use native.Mathlib.Nat.{pow-suc}
use vif.Anyint.Limbs.{IsLimbs, IsTrimmed, value}
use vif.Anyint.Small.{div_rem_small, div_rem_small_lem}
use vif.Anyint.Sign.{Anyint, IsValid, is_zero, is_empty}
use vif.Anyint.Natural.{Natural}
use vif.Anyint.Numeral.{◌>>=◌, meaning, next_number, read_digit, read_digit-decimal}
use vif.Anyint.Parse.{Parses, parse_radix, parse_radix_lem}
use vif.Prelude.{◌≢◌, sym}

-- `(b'0' + r as u8) as char`
abbrev digit_char : ℕ → ℕ
digit_char r = (48 + r % 256) % 256

-- `while !n.is_zero()`, on fuel: the digits as they are pushed, and nothing when the fuel ends.
digits_loop : ℕ → List ℕ → Option (List ℕ)
digits_loop zero limbs = if is_empty limbs then some [] else none
digits_loop (suc fuel) limbs =
    let r = div_rem_small limbs 10 in
    let rest = digits_loop fuel r.0 in
    if is_empty limbs then some [] else (rest >>= λ ds. some (digit_char r.1 ∷ ds))

abbrev minus_sign : Bool → List ℕ
minus_sign true = 45 ∷ []
minus_sign false = []

-- A division by 10 takes a bit at least, and a limb has 64.
unfoldable pub display : Anyint → Option (List ℕ)
unfolding digits_loop
display x =
    if is_zero x
    then some (48 ∷ [])
    else (digits_loop (64 * length x.limbs) x.limbs >>= λ ds.
        some (minus_sign x.negative ++ reverse ds))

bind_assoc :
    (f g h : ℕ → Option ℕ) (o : Option ℕ)
    → ((m : ℕ) → f m ≡ (g m >>= h))
    → (o >>= f) ≡ ((o >>= g) >>= h)
bind_assoc f g h none e = refl
bind_assoc f g h (some m) e = e m

meaning-append :
    (radix : ℕ) (xs ys : List ℕ) (n : ℕ)
    → meaning radix (xs ++ ys) n ≡ (meaning radix xs n >>= λ m. meaning radix ys m)
meaning-append radix [] ys n = refl
meaning-append radix (x ∷ xs) ys n =
    bind_assoc (λ m. meaning radix (xs ++ ys) m) (λ m. meaning radix xs m) (λ m. meaning radix ys m)
      (next_number radix (read_digit x) n) (meaning-append radix xs ys)

next_digit : (r n : ℕ) → r < 10 → next_number 10 (read_digit (digit_char r)) n ≡ some (n * 10 + r)
next_digit r n h =
    let char : digit_char r ≡ 48 + r = omega arith in
    ap (λ d. next_number 10 d n)
      (ap read_digit char ∙ read_digit-decimal (48 + r) (omega arith) (omega arith))
    ∙ ground arith

-- The digit that is pushed last is not `0`.
abbrev LastNonzero : List ℕ → Type 0
LastNonzero [] = Unit {0}
LastNonzero (c ∷ []) = c ≢ 48
LastNonzero (c ∷ d ∷ ds) = LastNonzero (d ∷ ds)

last-push :
    (ds : List ℕ) (q r : ℕ)
    → meaning 10 (reverse ds) 0 ≡ some q
    → r < 10
    → 0 < q * 10 + r
    → LastNonzero ds
    → LastNonzero (digit_char r ∷ ds)
last-push [] q r e h some_digit last = let none_before : 0 ≡ q = cc in λ is_zero_char. omega arith
last-push (d ∷ ds) q r e h some_digit last = last

-- The first digit is not `0`.
abbrev StartsNonzero : List ℕ → Type 0
StartsNonzero [] = ⊥
StartsNonzero (c ∷ cs) = c ≢ 48

append-StartsNonzero : (xs ys : List ℕ) → StartsNonzero xs → StartsNonzero (xs ++ ys)
append-StartsNonzero [] ys h = absurd h
append-StartsNonzero (x ∷ xs) ys h = h

reverse-StartsNonzero :
    (c : ℕ) (ds : List ℕ) → LastNonzero (c ∷ ds) → StartsNonzero (reverse (c ∷ ds))
reverse-StartsNonzero c [] h = h
reverse-StartsNonzero c (d ∷ ds) h =
    subst StartsNonzero (sym (reverse-append (c ∷ []) (d ∷ ds)))
      (append-StartsNonzero (reverse (d ∷ ds)) (c ∷ []) (reverse-StartsNonzero d ds h))

-- A digit at least, and no `0` before another digit.
abbrev pub IsCanonical : List ℕ → Type 0
IsCanonical [] = ⊥
IsCanonical (c ∷ []) = Unit {0}
IsCanonical (c ∷ d ∷ ds) = c ≢ 48

canonical : (ds : List ℕ) → StartsNonzero ds → IsCanonical ds
canonical [] h = absurd h
canonical (c ∷ []) h = tt
canonical (c ∷ d ∷ ds) h = h

-- The digits of `n`, as they are pushed.
abbrev IsDigits : Option (List ℕ) → ℕ → Type 0
IsDigits ds? n =
    (ds : List ℕ) × (ds? ≡ some ds) × (meaning 10 (reverse ds) 0 ≡ some n) × LastNonzero ds

reverse-IsCanonical :
    (ds : List ℕ) (n : ℕ)
    → meaning 10 (reverse ds) 0 ≡ some n
    → 0 < n
    → LastNonzero ds
    → IsCanonical (reverse ds)
reverse-IsCanonical [] n e h last = let none_before : 0 ≡ n = cc in absurd (omega arith)
reverse-IsCanonical (d ∷ ds) n e h last =
    canonical (reverse (d ∷ ds)) (reverse-StartsNonzero d ds last)

-- A digit more.
meaning-push :
    (ds : List ℕ) (q r : ℕ)
    → meaning 10 (reverse ds) 0 ≡ some q
    → r < 10
    → meaning 10 (reverse (digit_char r ∷ ds)) 0 ≡ some (q * 10 + r)
meaning-push ds q r e h =
    ap (λ l. meaning 10 l 0) (reverse-append (digit_char r ∷ []) ds)
    ∙ meaning-append 10 (reverse ds) (digit_char r ∷ []) 0
    ∙ ap (λ o. o >>= λ m. meaning 10 (digit_char r ∷ []) m) e
    ∙ ap (λ o. o >>= λ m. some m) (next_digit r q h)

digits_loop_lem :
    (fuel : ℕ) (limbs : List ℕ)
    → IsLimbs limbs
    → IsTrimmed limbs
    → value limbs < 2 ^ fuel
    → IsDigits (digits_loop fuel limbs) (value limbs)
unfolding digits_loop
digits_loop_lem zero [] il t h = ([], refl, refl, tt)
digits_loop_lem zero (x ∷ xs) il t h = absurd (omega (arith, value_pos_of_IsTrimmed x xs t))
digits_loop_lem (suc fuel) [] il t h = ([], refl, refl, tt)
digits_loop_lem (suc fuel) (x ∷ xs) il t h =
    let r = div_rem_small_lem (x ∷ xs) 10 il (omega arith) (omega arith) in
    let (ds, e, m, last) =
      digits_loop_lem fuel (div_rem_small (x ∷ xs) 10).0 r.2 r.3
        (omega (arith, r.0, pow-suc 2 fuel)) in
    let digit = (div_rem_small (x ∷ xs) 10).1 in
    (
      digit_char digit ∷ ds,
      rw e,
      meaning-push ds _ digit m r.1 ∙ ap some r.0,
      last-push ds _ digit m r.1 (omega (arith, r.0, value_pos_of_IsTrimmed x xs t)) last,
    )

-- The text of an integer: a minus sign if it is negative, and digits that mean its magnitude.
abbrev pub IsText : Anyint → Option (List ℕ) → Type 0
IsText x text? =
    (ds : List ℕ) × (text? ≡ some (minus_sign x.negative ++ ds))
    × (meaning 10 ds 0 ≡ some (value x.limbs))
    × IsCanonical ds

display_fields :
    (b : Bool) (xs : List ℕ)
    → IsValid (record { negative = b; limbs = xs })
    → IsText (record { negative = b; limbs = xs }) (display (record { negative = b; limbs = xs }))
unfolding display
display_fields b [] v = (
  48 ∷ [],
  rw (v.signed_zero refl) refl,
  ap (λ o. o >>= λ n. some n) (next_digit 0 0 (omega arith)),
  tt,
)
display_fields b (x ∷ xs) v =
    let fits : value (x ∷ xs) < 2 ^ (64 * length (x ∷ xs)) =
      subst (λ n. value (x ∷ xs) < n) (span-pow (length (x ∷ xs)))
        (value-lt-span (x ∷ xs) v.words) in
    let (ds, e, m, last) = digits_loop_lem (64 * length (x ∷ xs)) (x ∷ xs) v.words v.trimmed fits in
    (
      reverse ds,
      rw e refl,
      m,
      reverse-IsCanonical ds _ m (value_pos_of_IsTrimmed x xs v.trimmed) last,
    )

-- Printing a valid integer ends, with a minus sign if it is negative and then decimal digits, at
-- least one and with no `0` before another, which `meaning` reads back as its magnitude.
pub display_lem : (x : Anyint) → IsValid x → IsText x (display x)
display_lem x v = display_fields x.negative x.limbs v

-- What `parse_radix` makes of the digits that are printed for `x`.
abbrev pub ReadsBack : Anyint → Type 0
ReadsBack x =
    (ds : List ℕ) × (y : Anyint) × (display x ≡ some (minus_sign x.negative ++ ds))
    × IsCanonical ds
    × (parse_radix 10 ds ≡ some y)
    × Natural y (value x.limbs)

-- Printing a valid integer ends, with a minus sign if it is negative and then digits, at least one
-- and with no `0` before another, which `parse_radix` of radix 10 reads back as its magnitude, in
-- normal form.
pub parse_radix-display : (x : Anyint) → IsValid x → ReadsBack x
parse_radix-display x v =
    let (ds, text, m, first) = display_lem x v in
    let (y, parsed, n) =
      subst (λ n?. Parses n? (parse_radix 10 ds)) m
        (parse_radix_lem 10 ds (omega arith) (omega arith)) in
    (ds, y, text, first, parsed, n)
