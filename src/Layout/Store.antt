-- ===== src/Layout/Store.antt =====
-- src/value.rs: what the value store knows of a composite type, and the arithmetic of layouts. A
-- panic is `none`: a division by zero, a failed `div_exact`, an `unreachable!`, and an overflow of
-- `u64`, which a build without overflow checks would wrap around.
use vif.Prelude.{
  ℕ, zero, suc, ◌+◌, ◌-◌, ◌*◌, ◌/◌, ◌%◌, ◌^◌, List, Bool, ◌==◌, ltb, if◌then◌else◌, Option, none,
  some,
}
use vif.Sema.Types.{Ty}

infixl 1 ◌>>=◌
abbrev pub ◌>>=◌ {ℓ κ} : {A : Type ℓ} {B : Type κ} → Option A → (A → Option B) → Option B
none >>= f = none
some a >>= f = f a

pub record Layout : Type 0 where
  pub size : ℕ
  pub align : ℕ

-- `Layout::zeroed`
abbrev pub zeroed : Layout
zeroed = record { size = 0; align = 1 }

-- `TypeStruct`: the storage of a packed one, and the types of the fields.
pub record StructDef : Type 0 where
  pub packed_bits : Option ℕ
  pub fields : List Ty
  pub linear : Bool

pub record EnumDef : Type 0 where
  pub tag_ty : Ty
  pub linear : Bool

-- A field of a union may have no type.
pub record UnionDef : Type 0 where
  pub tag_ty : Option Ty
  pub fields : List (Option Ty)
  pub linear : Bool

-- The store, by the identities of the types, and the target.
pub record Store : Type 0 where
  pub ptr_width : ℕ
  pub struct_of : ℕ → StructDef
  pub enum_of : ℕ → EnumDef
  pub union_of : ℕ → UnionDef
  pub array_of : ℕ → Ty × ℕ
  pub pointee_of : ℕ → Ty
  pub slice_of : ℕ → Ty

-- A sum or a product of `u64`.
abbrev pub u64 : ℕ → Option ℕ
u64 n = if ltb n (2 ^ 64) then some n else none

-- `next_multiple_of`, before the overflow check.
unfoldable pub round_up : ℕ → ℕ → ℕ
round_up n align = if n % align == 0 then n else n + (align - n % align)

unfoldable pub next_multiple_of : ℕ → ℕ → Option ℕ
next_multiple_of n align = if align == 0 then none else u64 (round_up n align)

-- `div_exact(8).unwrap()`
abbrev pub ptr_bytes : Store → Option ℕ
ptr_bytes s = if s.ptr_width % 8 == 0 then some (s.ptr_width / 8) else none

-- `div_ceil(8)`
abbrev pub bytes_of : ℕ → ℕ
bytes_of bits = (bits + 7) / 8

-- `next_power_of_two`, of a size of at most 8192 bytes.
unfoldable pub power_from : ℕ → ℕ → ℕ → ℕ
power_from zero p n = p
power_from (suc rounds) p n = let more = power_from rounds (2 * p) n in if ltb p n then more else p

abbrev pub next_power_of_two : ℕ → ℕ
next_power_of_two n = power_from 14 1 n
