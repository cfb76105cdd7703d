-- ===== src/Layout/Struct.antt =====
-- The bounds of the layout of a structure, and types that have none.
use vif.Prelude.{
  ℕ, zero, suc, ◌+◌, ◌%◌, ◌≤◌, ◌<◌, List, [], ◌∷◌, none, some, max, ◌≡◌, refl, arith, inl, inr,
  Option-cases,
}
use mathlib.Core.Path.{subst}
use vif.Sema.Types.{Ty}
use vif.Layout.Store.{Layout, Store, u64, next_multiple_of}
use vif.Layout.Shape.{struct_loop, struct_layout, array_layout}
use vif.Layout.Types.{type_layout, type_is_comptime_only}
use vif.Layout.Union.{next_multiple_of-Rounds, u64_lem}

abbrev pub total_size : List Layout → ℕ
total_size [] = 0
total_size (field ∷ fields) = field.size + total_size fields

abbrev pub AllBelow : ℕ → List Layout → Type 0
AllBelow align [] = Unit {0}
AllBelow align (field ∷ fields) = (field.align ≤ align) × AllBelow align fields

-- The size and the alignment have room for the fields, after a start.
record Holds (fields : List Layout) (size align : ℕ) (r : ℕ × ℕ) : Type 0 where
  room : size + total_size fields ≤ r.0
  grows : align ≤ r.1
  aligned : AllBelow (r.1) fields

struct_loop-Holds :
    (fields : List Layout) (size align : ℕ) (r : ℕ × ℕ)
    → struct_loop fields size align ≡ some r
    → Holds fields size align r
unfolding struct_loop
struct_loop-Holds [] size align r h =
    let same : (size, align) ≡ r = cc in
    subst (Holds [] size align) same
      (record { room = omega arith; grows = omega arith; aligned = tt })
struct_loop-Holds (field ∷ fields) size align r h =
    elim (Option-cases (next_multiple_of size (field.align))) [
      | inl e ↦ absurd (let f = rw e at h in cc)
      | inr (start, e) ↦ elim (Option-cases (u64 (start + field.size))) [
        | inl g ↦ absurd (let f = rw (e, g) at h in cc)
        | inr (end, g) ↦
            let ih = struct_loop-Holds fields end (max align (field.align)) r (rw (e, g) at h) in
            let s = next_multiple_of-Rounds size (field.align) start e in
            let t = u64_lem (start + field.size) end g in
            record {
              room = omega (arith, ih.room, s.above, t);
              grows = omega (arith, ih.grows);
              aligned = (omega (arith, ih.grows), ih.aligned);
            }
      ]
    ]

-- The size is a multiple of the alignment, and the fields have room and their alignments.
pub record FitsStruct (fields : List Layout) (l : Layout) : Type 0 where
  pub whole : l.size % l.align ≡ 0
  pub positive : 0 < l.align
  pub room : total_size fields ≤ l.size
  pub aligned : AllBelow (l.align) fields

-- The layout of a structure of the standard layout, where there is one, has a size that is a
-- multiple of its alignment and no less than the sizes of the fields together, and an alignment
-- no less than that of any field.
pub struct_layout_lem :
    (fields : List Layout) (l : Layout) → struct_layout fields ≡ some l → FitsStruct fields l
unfolding struct_layout
struct_layout_lem fields l h = elim (Option-cases (struct_loop fields 0 1)) [
  | inl e ↦ absurd (let f = rw e at h in cc)
  | inr (r, e) ↦
      let held = struct_loop-Holds fields 0 1 r e in
      elim (Option-cases (next_multiple_of (r.0) (r.1))) [
        | inl g ↦ absurd (let f = rw (e, g) at h in cc)
        | inr (whole, g) ↦
            let n = next_multiple_of-Rounds (r.0) (r.1) whole g in
            let made : Layout = record { size = whole; align = r.1 } in
            let f = rw (e, g) at h in
            let same : made ≡ l = cc in
            subst (FitsStruct fields) same (record {
              whole = n.multiple;
              positive = n.positive;
              room = omega (arith, held.room, n.above);
              aligned = held.aligned;
            })
      ]
]

-- An array of `void` has no layout, of whatever length: its alignment is 0, and to round up to a
-- multiple of that is a panic.
pub type_layout-void_array :
    (s : Store) (fuel id : ℕ)
    → (s.array_of id).0 ≡ Ty.void
    → type_layout s fuel (Ty.array id) ≡ none
unfolding type_layout array_layout next_multiple_of
type_layout-void_array s zero id h = refl
type_layout-void_array s (suc zero) id h = refl
type_layout-void_array s (suc (suc fuel)) id h = rw h refl

-- For a structure whose first field is a pointer to itself, `type_is_comptime_only` does not end,
-- on any fuel.
pub type_is_comptime_only-hangs :
    (s : Store) (fuel id k : ℕ) (tys : List Ty)
    → (s.struct_of id).fields ≡ Ty.ptr k ∷ tys
    → s.pointee_of k ≡ Ty.struct id
    → type_is_comptime_only s fuel (Ty.struct id) ≡ none
unfolding type_is_comptime_only
type_is_comptime_only-hangs s zero id k tys h e = refl
type_is_comptime_only-hangs s (suc zero) id k tys h e = rw h refl
type_is_comptime_only-hangs s (suc (suc fuel)) id k tys h e =
    rw (h, e) (rw (type_is_comptime_only-hangs s fuel id k tys h e) refl)
