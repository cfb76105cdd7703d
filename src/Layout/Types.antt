-- ===== src/Layout/Types.antt =====
-- src/value.rs: `type_layout`, `type_union_layout`, `type_is_linear`, `type_is_int_signed` and
-- `type_is_comptime_only`. The recursion through the store is on fuel; no fuel is `none`.
use vif.Prelude.{
  ℕ, zero, suc, ◌*◌, List, [], ◌∷◌, Bool, true, false, if◌then◌else◌, Option, none, some,
}
use vif.Sema.Types.{Ty}
use vif.Layout.Store.{Layout, zeroed, Store, ◌>>=◌, ptr_bytes, bytes_of, next_power_of_two}
use vif.Layout.Shape.{
  struct_layout, array_layout, no_payload, payload_loop, UnionLayout, union_layout_of,
}

-- The layouts of the fields, in order.
abbrev pub layouts : (Ty → Option Layout) → List Ty → Option (List Layout)
layouts layout [] = some []
layouts layout (ty ∷ tys) = do l ← layout ty; ls ← layouts layout tys; some (l ∷ ls)

-- The layouts of the fields that have a type.
abbrev pub field_layouts : (Ty → Option Layout) → List (Option Ty) → Option (List (Option Layout))
field_layouts layout [] = some []
field_layouts layout (none ∷ tys) = do ls ← field_layouts layout tys; some (none ∷ ls)
field_layouts layout (some ty ∷ tys) = do
  l ← layout ty
  ls ← field_layouts layout tys
  some (some l ∷ ls)

abbrev pub tag_layout : (Ty → Option Layout) → Option Ty → Option Layout
tag_layout layout none = some zeroed
tag_layout layout (some ty) = layout ty

-- `type_union_layout`
unfoldable pub type_union_layout : (Ty → Option Layout) → Store → ℕ → Option UnionLayout
type_union_layout layout s id = do
  fields ← field_layouts layout ((s.union_of id).fields)
  tag ← tag_layout layout ((s.union_of id).tag_ty)
  union_layout_of tag (payload_loop fields 0 no_payload)

-- `type_ptr_layout`
abbrev pub type_ptr_layout : Store → Option Layout
type_ptr_layout s = do n ← ptr_bytes s; some (record { size = n; align = n })

-- A pointer and a word.
abbrev pub two_words : Store → Option Layout
two_words s = do n ← ptr_bytes s; some (record { size = n * 2; align = n })

abbrev pub struct_layout_of : (Ty → Option Layout) → Option ℕ → List Ty → Option Layout
struct_layout_of layout (some bits) tys = some (record { size = bytes_of bits; align = 1 })
struct_layout_of layout none tys = do ls ← layouts layout tys; struct_layout ls

abbrev pub sized : ℕ → Option Layout
sized n = some (record { size = n; align = n })

unfoldable pub type_layout : Store → ℕ → Ty → Option Layout
type_layout s zero ty = none
type_layout s (suc fuel) Ty.bool = sized 1
type_layout s (suc fuel) (Ty.int signed bits) =
    some (record { size = bytes_of bits; align = next_power_of_two (bytes_of bits) })
type_layout s (suc fuel) Ty.f16 = sized 2
type_layout s (suc fuel) Ty.f32 = sized 4
type_layout s (suc fuel) Ty.f64 = sized 8
type_layout s (suc fuel) Ty.f128 = sized 16
type_layout s (suc fuel) (Ty.ptr id) = type_ptr_layout s
type_layout s (suc fuel) Ty.usize = type_ptr_layout s
type_layout s (suc fuel) Ty.isize = type_ptr_layout s
type_layout s (suc fuel) (Ty.array id) = do
  elem ← type_layout s fuel ((s.array_of id).0)
  array_layout elem ((s.array_of id).1)
type_layout s (suc fuel) (Ty.slice id) = two_words s
type_layout s (suc fuel) Ty.anyptr = two_words s
type_layout s (suc fuel) (Ty.struct id) =
    struct_layout_of (λ ty. type_layout s fuel ty) ((s.struct_of id).packed_bits)
      ((s.struct_of id).fields)
type_layout s (suc fuel) (Ty.enum id) = type_layout s fuel ((s.enum_of id).tag_ty)
type_layout s (suc fuel) (Ty.union id) = do
  u ← type_union_layout (λ ty. type_layout s fuel ty) s id
  some (u.union_layout)
type_layout s (suc fuel) Ty.void = some (record { size = 0; align = 0 })
type_layout s (suc fuel) _ = none

unfoldable pub type_is_linear : Store → Ty → Bool
type_is_linear s (Ty.struct id) = (s.struct_of id).linear
type_is_linear s (Ty.enum id) = (s.enum_of id).linear
type_is_linear s (Ty.union id) = (s.union_of id).linear
type_is_linear s _ = false

-- Nothing where the type is no integer, which is an `unreachable!`.
unfoldable pub type_is_int_signed : Ty → Option Bool
type_is_int_signed (Ty.int signed bits) = some signed
type_is_int_signed Ty.usize = some false
type_is_int_signed Ty.isize = some true
type_is_int_signed _ = none

-- Whether one of the fields is; the first that is ends the loop.
abbrev pub any_only : (Ty → Option Bool) → List Ty → Option Bool
any_only only [] = some false
any_only only (ty ∷ tys) = do b ← only ty; if b then some true else any_only only tys

abbrev pub any_field_only : (Ty → Option Bool) → List (Option Ty) → Option Bool
any_field_only only [] = some false
any_field_only only (none ∷ tys) = any_field_only only tys
any_field_only only (some ty ∷ tys) = do
  b ← only ty
  if b then some true else any_field_only only tys

unfoldable pub type_is_comptime_only : Store → ℕ → Ty → Option Bool
type_is_comptime_only s zero ty = none
type_is_comptime_only s (suc fuel) Ty.anyint = some true
type_is_comptime_only s (suc fuel) Ty.anyfloat = some true
type_is_comptime_only s (suc fuel) Ty.type = some true
type_is_comptime_only s (suc fuel) Ty.enum_literal = some true
type_is_comptime_only s (suc fuel) Ty.null_ptr = some true
type_is_comptime_only s (suc fuel) Ty.generic_poison = some true
type_is_comptime_only s (suc fuel) (Ty.struct id) =
    any_only (λ ty. type_is_comptime_only s fuel ty) ((s.struct_of id).fields)
type_is_comptime_only s (suc fuel) (Ty.ptr id) = type_is_comptime_only s fuel (s.pointee_of id)
type_is_comptime_only s (suc fuel) (Ty.slice id) = type_is_comptime_only s fuel (s.slice_of id)
type_is_comptime_only s (suc fuel) (Ty.array id) = type_is_comptime_only s fuel ((s.array_of id).0)
type_is_comptime_only s (suc fuel) (Ty.enum id) =
    type_is_comptime_only s fuel ((s.enum_of id).tag_ty)
type_is_comptime_only s (suc fuel) (Ty.union id) =
    any_field_only (λ ty. type_is_comptime_only s fuel ty) ((s.union_of id).fields)
type_is_comptime_only s (suc fuel) _ = some false
