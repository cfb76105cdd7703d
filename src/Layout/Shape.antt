-- ===== src/Layout/Shape.antt =====
-- src/value.rs: the layout of a structure, an array and a union from the layouts of their parts.
use vif.Prelude.{
  ℕ, suc, ◌+◌, ◌-◌, ◌*◌, List, [], ◌∷◌, ◌==◌, leb, if◌then◌else◌, Option, none, some, max,
}
use vif.Layout.Store.{Layout, ◌>>=◌, u64, next_multiple_of}

-- The loop over the fields of a structure of the standard layout.
unfoldable pub struct_loop : List Layout → ℕ → ℕ → Option (ℕ × ℕ)
struct_loop [] size align = some (size, align)
struct_loop (field ∷ fields) size align = do
  start ← next_multiple_of size (field.align)
  end ← u64 (start + field.size)
  struct_loop fields end (max align (field.align))

abbrev pub rounded : ℕ × ℕ → Option Layout
rounded (size, align) = do
  whole ← next_multiple_of size align
  some (record { size = whole; align = align })

unfoldable pub struct_layout : List Layout → Option Layout
struct_layout fields = do r ← struct_loop fields 0 1; rounded r

unfoldable pub array_layout : Layout → ℕ → Option Layout
array_layout elem len = do
  stride ← next_multiple_of (elem.size) (elem.align)
  size ← u64 (stride * len)
  some (record { size = size; align = elem.align })

-- The payload of a union: the field of the greatest alignment, the last of these.
pub record Payload : Type 0 where
  pub payload_size : ℕ
  pub payload_align : ℕ
  pub most_aligned_field : ℕ
  pub most_aligned_layout : Layout

abbrev pub no_payload : Payload
no_payload = record {
  payload_size = 0;
  payload_align = 1;
  most_aligned_field = 0;
  most_aligned_layout = record { size = 0; align = 0 };
}

abbrev pub add_field : ℕ → Layout → Payload → Payload
add_field i field p =
    if field.size == 0
    then p
    else if leb (p.payload_align) (field.align)
    then record {
      payload_size = max (p.payload_size) (field.size);
      payload_align = field.align;
      most_aligned_field = i;
      most_aligned_layout = field;
    }
    else record p { payload_size = max (p.payload_size) (field.size) }

-- The loop, over the fields that have a type; `i` is the index of a field.
unfoldable pub payload_loop : List (Option Layout) → ℕ → Payload → Payload
payload_loop [] i p = p
payload_loop (none ∷ fields) i p = payload_loop fields (suc i) p
payload_loop (some field ∷ fields) i p = payload_loop fields (suc i) (add_field i field p)

pub record UnionLayout : Type 0 where
  pub union_layout : Layout
  pub tag : Layout
  pub payload : Payload
  pub trailing_padding : ℕ

-- `content_end`: the tag first, unless the payload has the greater alignment.
unfoldable pub content_end : Layout → Payload → Option ℕ
content_end tag p =
    if tag.size == 0
    then some (p.payload_size)
    else if p.payload_size == 0
    then some (tag.size)
    else if leb (p.payload_align) (tag.align)
    then (do start ← next_multiple_of (tag.size) (p.payload_align); u64 (start + p.payload_size))
    else (do start ← next_multiple_of (p.payload_size) (tag.align); u64 (start + tag.size))

unfoldable pub union_layout_of : Layout → Payload → Option UnionLayout
union_layout_of tag p = do
  end ← content_end tag p
  size ← next_multiple_of end (max (tag.align) (p.payload_align))
  some (record {
    union_layout = record { size = size; align = max (tag.align) (p.payload_align) };
    tag = tag;
    payload = p;
    trailing_padding = size - end;
  })
