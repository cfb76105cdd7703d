-- ===== src/Anyint/Product.antt =====
-- src/int.rs: the schoolbook product of `impl Mul for &Anyint`, on magnitudes.
use vif.Prelude.{
  ℕ, zero, suc, ◌+◌, ◌*◌, ◌≤◌, ◌<◌, List, [], ◌∷◌, ◌≡◌, refl, ap, ◌∙◌, arith, length, ◌==◌,
  Bool-cases, inl, inr, if◌then◌else◌, Option, none, some, replicate, length-replicate,
}
use native.Mathlib.Nat.{mul-le-mul}
use vif.Anyint.Limbs.{base, u128, as_u64, high, IsLimbs, value, span, value-lt-span}
use vif.Anyint.Small.{mul-add-lt}

-- `out[idx]` past the end is a panic, which is `none`.
infixl 1 ◌>>=◌
abbrev ◌>>=◌ {ℓ κ} : {A : Type ℓ} {B : Type κ} → Option A → (A → Option B) → Option B
none >>= f = none
some a >>= f = f a

-- `while carry != 0`, from `out[idx]` on.
carry_loop : List ℕ → ℕ → Option (List ℕ)
carry_loop [] carry = if carry == 0 then some [] else none
carry_loop (o ∷ out) carry =
    let cur = u128 (o + carry) in
    let rest = carry_loop out (high cur) in
    if carry == 0 then some (o ∷ out) else (rest >>= λ out'. some (as_u64 cur ∷ out'))

-- The inner loop over the limbs `b` of `rhs`, from `out[i + j]` on, and the loop behind it.
mul_row : List ℕ → ℕ → List ℕ → ℕ → Option (List ℕ)
mul_row out a [] carry = carry_loop out carry
mul_row [] a (b ∷ rhs) carry = none
mul_row (o ∷ out) a (b ∷ rhs) carry = do
  let cur = u128 (u128 (o + u128 (a * b)) + carry)
  out' ← mul_row out a rhs (high cur)
  some (as_u64 cur ∷ out')

-- A row leaves `out[i]` as it is from then on: the next row starts at `out[i + 1]`.
mul_next : (List ℕ → Option (List ℕ)) → List ℕ → Option (List ℕ)
mul_next rows [] = rows []
mul_next rows (o ∷ out) = do out' ← rows out; some (o ∷ out')

-- The outer loop over the limbs `a` of `lhs`, from `out[i]` on.
mul_rows : List ℕ → List ℕ → List ℕ → Option (List ℕ)
mul_rows [] rhs out = some out
mul_rows (a ∷ lhs) rhs out = do out' ← mul_row out a rhs 0; mul_next (mul_rows lhs rhs) out'

-- The vector `out` of the product, before `normalize`.
unfoldable pub mul_limbs : List ℕ → List ℕ → Option (List ℕ)
unfolding mul_rows mul_next mul_row carry_loop
mul_limbs lhs rhs = mul_rows lhs rhs (replicate (length lhs + length rhs) 0)

-- The loop ran to its end with these limbs.
record Produces (r : Option (List ℕ)) (len total : ℕ) : Type 0 where
  out : List ℕ
  returned : r ≡ some out
  limbs : IsLimbs out
  len_is : length out ≡ len
  total_is : value out ≡ total

carry_loop_lem :
    (out : List ℕ) (carry : ℕ)
    → IsLimbs out
    → carry < base
    → value out + carry < span (length out)
    → Produces (carry_loop out carry) (length out) (value out + carry)
unfolding carry_loop
carry_loop_lem [] carry il hc room =
    let e : carry ≡ 0 = omega arith in
    record { out = []; returned = rw e; limbs = tt; len_is = refl; total_is = omega arith }
carry_loop_lem (o ∷ out) carry il hc room = elim (Bool-cases (carry == 0)) [
  | inl done ↦
      let e : carry ≡ 0 = ground arith in
      record {
        out = o ∷ out;
        returned = rw done;
        limbs = il;
        len_is = refl;
        total_is = omega arith;
      }
  | inr more ↦
      let cur = u128 (o + carry) in
      let rest = carry_loop_lem out (high cur) il.1 (omega arith) (omega arith) in
      record {
        out = as_u64 cur ∷ rest.out;
        returned = rw (more, rest.returned);
        limbs = (omega arith, rest.limbs);
        len_is = ap suc rest.len_is;
        total_is = omega (arith, rest.total_is);
      }
]

mul_row_lem :
    (out : List ℕ) (a : ℕ) (rhs : List ℕ) (carry : ℕ)
    → IsLimbs out
    → a < base
    → IsLimbs rhs
    → carry < base
    → length rhs ≤ length out
    → value out + a * value rhs + carry < span (length out)
    → Produces (mul_row out a rhs carry) (length out) (value out + a * value rhs + carry)
unfolding mul_row
mul_row_lem out a [] carry il ha ir hc len room =
    let r = carry_loop_lem out carry il hc (omega arith) in
    record {
      out = r.out;
      returned = r.returned;
      limbs = r.limbs;
      len_is = r.len_is;
      total_is = omega (arith, r.total_is);
    }
mul_row_lem [] a (b ∷ rhs) carry il ha ir hc len room = elim len [ ]
mul_row_lem (o ∷ out) a (b ∷ rhs) carry il ha ir hc len room =
    let cur = u128 (u128 (o + u128 (a * b)) + carry) in
    let bound = mul-add-lt a b o carry ha ir.0 il.0 hc in
    let rest =
      mul_row_lem out a rhs (high cur) il.1 ha ir.1 (omega arith) (omega arith) (omega arith) in
    record {
      out = as_u64 cur ∷ rest.out;
      returned = rw rest.returned;
      limbs = (omega arith, rest.limbs);
      len_is = ap suc rest.len_is;
      total_is = omega (arith, rest.total_is);
    }

mul_next_lem :
    (rows : List ℕ → Option (List ℕ)) (out : List ℕ) (n more : ℕ)
    → IsLimbs out
    → length out ≡ suc n
    → ((out' : List ℕ)
        → IsLimbs out'
        → length out' ≡ n
        → base * value out' ≤ value out
        → value out < base + base * value out'
        → Produces (rows out') n (value out' + more))
    → Produces (mul_next rows out) (suc n) (value out + base * more)
unfolding mul_next
mul_next_lem rows [] n more il len step = absurd (omega arith)
mul_next_lem rows (o ∷ out) n more il len step =
    let r = step out il.1 (omega arith) (omega arith) (omega (arith, il.0)) in
    record {
      out = o ∷ r.out;
      returned = rw r.returned;
      limbs = (il.0, r.limbs);
      len_is = ap suc r.len_is;
      total_is = omega (arith, r.total_is);
    }

mul_rows_lem :
    (lhs rhs out : List ℕ)
    → IsLimbs lhs
    → IsLimbs rhs
    → IsLimbs out
    → length out ≡ length lhs + length rhs
    → value out + value lhs * value rhs < span (length out)
    → Produces (mul_rows lhs rhs out) (length out) (value out + value lhs * value rhs)
unfolding mul_rows
mul_rows_lem [] rhs out il ir io len room = record {
  out = out;
  returned = refl;
  limbs = io;
  len_is = refl;
  total_is = omega arith;
}
mul_rows_lem (a ∷ lhs) rhs out il ir io len room =
    let row = mul_row_lem out a rhs 0 io il.0 ir (omega arith) (omega arith) (omega arith) in
    let n = length lhs + length rhs in
    let wide : span (length out) ≡ base * span n = ap span {y = suc n} (omega arith) in
    let next =
      mul_next_lem (mul_rows lhs rhs) row.out n (value lhs * value rhs) row.limbs
        (omega (arith, row.len_is))
        (λ out' lo len' le lt.
          let narrow : span (length out') ≡ span n = ap span len' in
          let r = mul_rows_lem lhs rhs out' il.1 ir lo len' (omega (arith, row.total_is)) in
          record {
            out = r.out;
            returned = r.returned;
            limbs = r.limbs;
            len_is = r.len_is ∙ len';
            total_is = r.total_is;
          }) in
    record {
      out = next.out;
      returned = rw row.returned next.returned;
      limbs = next.limbs;
      len_is = omega (arith, next.len_is);
      total_is = omega (arith, next.total_is, row.total_is);
    }

span-add : (m n : ℕ) → span (m + n) ≡ span m * span n
span-add zero n = ap span {y = n} (omega arith) ∙ omega arith
span-add (suc m) n = ap span {y = suc (m + n)} (omega arith) ∙ omega (arith, span-add m n)

mul_lt-span :
    (lhs rhs : List ℕ)
    → IsLimbs lhs
    → IsLimbs rhs
    → value lhs * value rhs < span (length lhs + length rhs)
mul_lt-span lhs rhs il ir =
    let fits = mul-le-mul (value-lt-span lhs il) (value-lt-span rhs ir) in
    omega (arith, fits, span-add (length lhs) (length rhs))

zeros_lem : (n : ℕ) → IsLimbs (replicate n 0) × (value (replicate n 0) ≡ 0)
zeros_lem zero = (tt, refl)
zeros_lem (suc n) = ((omega arith, (zeros_lem n).0), omega (arith, (zeros_lem n).1))

-- The product never writes past the end of `out`, and is the product of the numbers.
pub mul_limbs_lem :
    (lhs rhs : List ℕ)
    → IsLimbs lhs
    → IsLimbs rhs
    → (out : List ℕ) × (mul_limbs lhs rhs ≡ some out)
      × IsLimbs out
      × (value out ≡ value lhs * value rhs)
unfolding mul_limbs
mul_limbs_lem lhs rhs il ir =
    let n = length lhs + length rhs in
    let zeros = replicate n 0 in
    let wide : span (length zeros) ≡ span n = ap span (length-replicate n 0) in
    let r =
      mul_rows_lem lhs rhs zeros il ir (zeros_lem n).0 (length-replicate n 0)
        (omega (arith, (zeros_lem n).1, mul_lt-span lhs rhs il ir)) in
    (r.out, r.returned, r.limbs, omega (arith, r.total_is, (zeros_lem n).1))
