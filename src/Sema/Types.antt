-- ===== src/Sema/Types.antt =====
-- src/value.rs: the types of the language.
use vif.Prelude.{ℕ, Bool, true, false, Option, none, some}

-- `value::Type`. A payload that is interned or that stands in the value store is given by its
-- identity.
pub data Ty : Type 0 where
  int : Bool → ℕ → Ty
  anyint anyfloat usize isize f16 f32 f64 f128 bool void : Ty
  struct enum union fn ptr slice array : ℕ → Ty
  null_ptr anyptr type never enum_literal generic_poison : Ty

-- The sign and the width of a machine integer; nothing for every other type.
unfoldable pub int_shape : ℕ → Ty → Option (Bool × ℕ)
int_shape ptr_width (int signed bits) = some (signed, bits)
int_shape ptr_width isize = some (true, ptr_width)
int_shape ptr_width usize = some (false, ptr_width)
int_shape ptr_width _ = none

-- `type_bit_size`; nothing where the code has `unreachable!`. A structure has a size if it is
-- packed, `packed_bits`, and none for the standard layout.
unfoldable pub type_bit_size : Option ℕ → Ty → Option ℕ
type_bit_size packed_bits (int signed bits) = some bits
type_bit_size packed_bits (struct id) = packed_bits
type_bit_size packed_bits bool = some 1
type_bit_size packed_bits _ = none
