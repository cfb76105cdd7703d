-- ===== src/Anyint/Division.antt =====
-- src/int.rs: long division of magnitudes, `div_rem_abs`.
use vif.Prelude.{ℕ, zero, suc, List, [], ◌∷◌, Bool, false, if◌then◌else◌, Ordering}
use Prim.Native.Nat.{lt}
use vif.Anyint.Compare.{abs_cmp}
use vif.Anyint.Small.{div_rem_small}
use vif.Anyint.Sum.{add_small}
use vif.Anyint.Shift.{abs_shl}
use vif.Anyint.SetBit.{set_bit, test_bit}
use vif.Anyint.Width.{significant_bits}
use vif.Anyint.Sign.{from_u64, Anyint, zero_int, with_sign, from_u64, sub}

-- The two variables of the loop.
pub record DivRem : Type 0 where
  pub quotient : Anyint
  pub remainder : Anyint

-- `remainder.abs_shl(1)`, and the bit that comes down.
unfoldable pub bring_down : Anyint → Bool → Anyint
bring_down r bit =
    let doubled = with_sign r.negative (abs_shl r.limbs 1) in
    if bit then record doubled { limbs = add_small doubled.limbs 1 } else doubled

-- `remainder.abs_cmp(rhs) != Less`
abbrev pub take_away : Ordering → ℕ → Anyint → Anyint → Anyint → DivRem
take_away lt bit q r rhs = record { quotient = q; remainder = r }
take_away _ bit q r rhs = record {
  quotient = record q { limbs = set_bit q.limbs bit };
  remainder = sub r rhs;
}

unfoldable pub div_round : Anyint → Anyint → ℕ → DivRem → DivRem
div_round lhs rhs bit st =
    let r = bring_down st.remainder (test_bit lhs.limbs bit) in
    take_away (abs_cmp r.limbs rhs.limbs) bit st.quotient r rhs

-- `for bit in (0..bits).rev()`
unfoldable pub div_loop : Anyint → Anyint → ℕ → DivRem → DivRem
div_loop lhs rhs zero st = st
div_loop lhs rhs (suc bit) st = div_loop lhs rhs bit (div_round lhs rhs bit st)

abbrev pub long_division : Anyint → Anyint → DivRem
long_division lhs rhs =
    div_loop lhs rhs (significant_bits lhs.limbs)
      (record { quotient = zero_int; remainder = zero_int })

-- The divisor's limbs tell a word from a longer number.
abbrev pub divide_by : List ℕ → Anyint → Anyint → DivRem
divide_by (d ∷ []) lhs rhs =
    let r = div_rem_small lhs.limbs d in
    record { quotient = record { negative = false; limbs = r.0 }; remainder = from_u64 r.1 }
divide_by _ lhs rhs = long_division lhs rhs

abbrev pub div_rem_larger : Ordering → Anyint → Anyint → DivRem
div_rem_larger lt lhs rhs = record { quotient = zero_int; remainder = lhs }
div_rem_larger _ lhs rhs = divide_by rhs.limbs lhs rhs

-- The callers have tested that `rhs` is not zero.
unfoldable pub div_rem_abs : Anyint → Anyint → DivRem
unfolding div_loop div_round bring_down
div_rem_abs lhs rhs = div_rem_larger (abs_cmp lhs.limbs rhs.limbs) lhs rhs
