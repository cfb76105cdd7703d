-- ===== src/Layout/Tests.antt =====
-- Runs of the layouts on small types.
use vif.Layout.Abi.{Repr, Use, Target, compute_type_abi_win64, compute_type_abi_c}
use vif.Layout.Passing.{IsPassed, compute_type_abi_c-IsPassed}
use vif.Prelude.{[], ◌∷◌, true, false, none, some, ◌≡◌, refl}
use vif.Sema.Types.{Ty}
use vif.Layout.Store.{Layout, Store, round_up, next_multiple_of, power_from}
use vif.Layout.Shape.{
  struct_loop, struct_layout, Payload, add_field, no_payload, payload_loop, UnionLayout,
  content_end, union_layout_of,
}
use vif.Layout.Types.{type_layout, type_union_layout, type_is_comptime_only}
use vif.Layout.Union.{FitsUnion, union_layout_of_lem}
use vif.Layout.Struct.{
  FitsStruct, struct_layout_lem, type_layout-void_array, type_is_comptime_only-hangs,
}

abbrev byte : Layout
byte = record { size = 1; align = 1 }

abbrev word : Layout
word = record { size = 4; align = 4 }

abbrev two_fields : Layout
two_fields = record { size = 8; align = 4 }

-- A structure of a pointer to itself, a union of a byte and a word, and an array of `void`.
abbrev small_store : Store
small_store = record {
  ptr_width = 64;
  struct_of =
      λ id. record { packed_bits = none; fields = Ty.ptr 0 ∷ Ty.int false 8 ∷ []; linear = false };
  enum_of = λ id. record { tag_ty = Ty.int false 8; linear = false };
  union_of = λ id. record {
    tag_ty = some (Ty.int false 8);
    fields = some (Ty.int false 8) ∷ none ∷ some (Ty.int true 32) ∷ [];
    linear = true;
  };
  array_of = λ id. (Ty.void, 3);
  pointee_of = λ id. Ty.struct 0;
  slice_of = λ id. Ty.bool;
}

struct_run : struct_layout (byte ∷ word ∷ []) ≡ some two_fields
unfolding struct_layout struct_loop next_multiple_of round_up
struct_run = refl

struct_layout_lem_example : FitsStruct (byte ∷ word ∷ []) two_fields
struct_layout_lem_example = struct_layout_lem (byte ∷ word ∷ []) two_fields struct_run

abbrev word_payload : Payload
word_payload = add_field 2 word (add_field 0 byte no_payload)

abbrev tagged : UnionLayout
tagged = record {
  union_layout = two_fields;
  tag = byte;
  payload = word_payload;
  trailing_padding = 3;
}

union_run : union_layout_of byte word_payload ≡ some tagged
unfolding union_layout_of content_end next_multiple_of round_up
union_run = refl

union_layout_of_lem_example : FitsUnion byte word_payload tagged
union_layout_of_lem_example = union_layout_of_lem byte word_payload tagged union_run

type_run : type_layout small_store 2 (Ty.union 0) ≡ some two_fields
unfolding type_layout type_union_layout payload_loop union_layout_of content_end next_multiple_of
    round_up power_from
type_run = refl

type_layout-void_array_example : type_layout small_store 5 (Ty.array 0) ≡ none
type_layout-void_array_example = type_layout-void_array small_store 5 0 refl

type_is_comptime_only-hangs_example : type_is_comptime_only small_store 9 (Ty.struct 0) ≡ none
type_is_comptime_only-hangs_example =
    type_is_comptime_only-hangs small_store 9 0 0 (Ty.int false 8 ∷ []) refl refl

abi_run :
    compute_type_abi_c Target.x86_64_windows small_store 2 (Ty.union 0) Use.param
    ≡ some Repr.as_integer
unfolding compute_type_abi_c compute_type_abi_win64 type_layout type_union_layout payload_loop
    union_layout_of content_end next_multiple_of round_up power_from
abi_run = refl

compute_type_abi_c-IsPassed_example :
    IsPassed Unit Unit ⊥
      (type_layout small_store 2 (Ty.union 0))
      (compute_type_abi_c Target.x86_64_windows small_store 2 (Ty.union 0) Use.param)
compute_type_abi_c-IsPassed_example =
    compute_type_abi_c-IsPassed Target.x86_64_windows small_store 2 (Ty.union 0) Use.param
