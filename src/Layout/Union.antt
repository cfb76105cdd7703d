-- ===== src/Layout/Union.antt =====
-- The bounds of the layouts that src/value.rs computes.
use vif.Prelude.{
  max, ℕ, ◌+◌, ◌-◌, ◌*◌, ◌/◌, ◌%◌, ◌^◌, ◌≤◌, ◌<◌, ◌==◌, ltb, leb, some, ◌≡◌, ap, ◌∙◌, arith, inl,
  inr, Bool-cases, Option-cases,
}
use mathlib.Core.Path.{subst}
use native.Mathlib.Nat.{mul-add-mod_self_left, mod_self, mod-add-div, mod-lt}
use vif.Layout.Store.{Layout, ◌>>=◌, u64, round_up, next_multiple_of}
use vif.Layout.Shape.{union_layout_of, Payload, UnionLayout, content_end}

-- The least multiple that is not below.
pub record Rounds (n align whole : ℕ) : Type 0 where
  pub positive : 0 < align
  pub multiple : whole % align ≡ 0
  pub above : n ≤ whole
  pub least : whole < n + align

above_multiple : (n align : ℕ) → 0 < align → (n + (align - n % align)) % align ≡ 0
above_multiple n align h =
    let same : n + (align - n % align) ≡ align * (n / align) + align =
      omega (arith, mod-add-div n align, mod-lt n h) in
    ap (λ x. x % align) same ∙ mul-add-mod_self_left align (n / align) align ∙ mod_self align

round_up-Rounds : (n align : ℕ) → 0 < align → Rounds n align (round_up n align)
unfolding round_up
round_up-Rounds n align h = elim (Bool-cases (n % align == 0)) [
  | inl e ↦
      rw e
        (record { positive = h; multiple = ground arith; above = omega arith; least = omega arith })
  | inr e ↦
      let some_rest : 0 < n % align = ground arith in
      rw e (record {
        positive = h;
        multiple = above_multiple n align h;
        above = omega arith;
        least = omega arith;
      })
]

pub next_multiple_of-Rounds :
    (n align whole : ℕ) → next_multiple_of n align ≡ some whole → Rounds n align whole
unfolding next_multiple_of
next_multiple_of-Rounds n align whole h = elim (Bool-cases (align == 0)) [
  | inl e ↦ absurd (let f = rw e at h in cc)
  | inr e ↦
      let same : round_up n align ≡ whole = ground arith in
      subst (Rounds n align) same (round_up-Rounds n align (ground arith))
]

pub u64_lem : (n m : ℕ) → u64 n ≡ some m → n ≡ m
u64_lem n m h = elim (Bool-cases (ltb n (2 ^ 64))) [
  | inl e ↦ let f = rw e at h in cc
  | inr e ↦ absurd (let f = rw e at h in cc)
]

-- A number that is rounded up, and then a sum.
aligned_sum :
    (n align m end : ℕ)
    → (next_multiple_of n align >>= (λ start. u64 (start + m))) ≡ some end
    → n + m ≤ end
aligned_sum n align m end h = elim (Option-cases (next_multiple_of n align)) [
  | inl e ↦ absurd (let f = rw e at h in cc)
  | inr (start, e) ↦
      let r = next_multiple_of-Rounds n align start e in
      let f = rw e at h in omega (arith, r.above, u64_lem (start + m) end f)
]

content_end_lem :
    (tag : Layout) (p : Payload) (end : ℕ)
    → content_end tag p ≡ some end
    → tag.size + p.payload_size ≤ end
unfolding content_end
content_end_lem tag p end h = elim (Bool-cases (tag.size == 0)) [
  | inl e ↦
      let f = rw e at h in
      let same : p.payload_size ≡ end = cc in
      let none_there : tag.size ≡ 0 = ground arith in omega arith
  | inr e ↦ elim (Bool-cases (p.payload_size == 0)) [
    | inl g ↦
        let f = rw (e, g) at h in
        let same : tag.size ≡ end = cc in
        let none_there : p.payload_size ≡ 0 = ground arith in omega arith
    | inr g ↦ elim (Bool-cases (leb (p.payload_align) (tag.align))) [
      | inl k ↦ aligned_sum (tag.size) (p.payload_align) (p.payload_size) end (rw (e, g, k) at h)
      | inr k ↦
          let r = aligned_sum (p.payload_size) (tag.align) (tag.size) end (rw (e, g, k) at h) in
          omega (arith, r)
    ]
  ]
]

-- The size is a multiple of the alignment, the padding at the end is less than that, and there is
-- room for the tag, the payload and the padding.
pub record FitsUnion (tag : Layout) (p : Payload) (u : UnionLayout) : Type 0 where
  pub whole : u.union_layout.size % u.union_layout.align ≡ 0
  pub padding : u.trailing_padding < u.union_layout.align
  pub room : tag.size + p.payload_size + u.trailing_padding ≤ u.union_layout.size
  pub aligned : (tag.align ≤ u.union_layout.align) × (p.payload_align ≤ u.union_layout.align)

-- The layout of a union, where there is one, has a size that is a multiple of its alignment, an
-- alignment no less than that of the tag and of the payload, room for the tag, the payload and the
-- padding at the end, and a padding below the alignment.
pub union_layout_of_lem :
    (tag : Layout) (p : Payload) (u : UnionLayout)
    → union_layout_of tag p ≡ some u
    → FitsUnion tag p u
unfolding union_layout_of
union_layout_of_lem tag p u h = elim (Option-cases (content_end tag p)) [
  | inl e ↦ absurd (let f = rw e at h in cc)
  | inr (end, e) ↦
      let align = max (tag.align) (p.payload_align) in
      let room = content_end_lem tag p end e in
      elim (Option-cases (next_multiple_of end align)) [
        | inl g ↦ absurd (let f = rw (e, g) at h in cc)
        | inr (size, g) ↦
            let r = next_multiple_of-Rounds end align size g in
            let made : UnionLayout = record {
              union_layout = record { size = size; align = align };
              tag = tag;
              payload = p;
              trailing_padding = size - end;
            } in
            let f = rw (e, g) at h in
            let same : made ≡ u = cc in
            subst (FitsUnion tag p) same (record {
              whole = r.multiple;
              padding = omega (arith, r.least, r.positive);
              room = omega (arith, r.above, room);
              aligned = (omega arith, omega arith);
            })
      ]
]
