-- ===== src/Sema/Fold.antt =====
-- What the compile-time operations on integers return, against the integers.
use mathlib.Core.Path.{subst}
use vif.Prelude.{ℕ, ◌<◌, Bool, true, ◌≡◌, refl, arith, ◌≢◌, ◌↔◌, some}
use vif.Prelude.Int.{ℤ, pos, ◌+ℤ◌, ◌-ℤ◌, ◌*ℤ◌, ◌≤ℤ◌, ◌<ℤ◌}
use vif.Anyint.Sign
use vif.Anyint.Sign.{Anyint, IsValid, to_ℤ, is_zero, compare_ℤ, Computes}
use vif.Anyint.Arith.{add_lem, sub_lem, mul_lem, cmp_lem}
use vif.Sema.Types.{Ty, int_shape}
use vif.Sema.Wrap.{wrap_int_value, wrap_int_value_lem, IsWrapped, IsInRange}
use vif.Sema.Comptime.{ArithOp, fold_arith, CmpOp, cmp_comptime, fold_cmp}

-- The exact result of `+`, `-` and `*`, with or without saturation.
abbrev pub exact : ArithOp → ℤ → ℤ → ℤ
exact ArithOp.add a b = a +ℤ b
exact ArithOp.add_sat a b = a +ℤ b
exact ArithOp.sub a b = a -ℤ b
exact ArithOp.sub_sat a b = a -ℤ b
exact ArithOp.mul a b = a *ℤ b
exact ArithOp.mul_sat a b = a *ℤ b
exact _ a b = pos 0

-- `+`, `-` and `*`, which wrap around.
abbrev pub IsWrapping : ArithOp → Type 0
IsWrapping ArithOp.add = Unit
IsWrapping ArithOp.sub = Unit
IsWrapping ArithOp.mul = Unit
IsWrapping _ = ⊥

abbrev pub IsSaturating : ArithOp → Type 0
IsSaturating ArithOp.add_sat = Unit
IsSaturating ArithOp.sub_sat = Unit
IsSaturating ArithOp.mul_sat = Unit
IsSaturating _ = ⊥

abbrev pub Wraps : ArithOp → ℕ → Ty → Bool → ℕ → Anyint → Anyint → Type 0
Wraps op ptr_width ty sign bits x y =
    (w : Anyint) × (fold_arith ptr_width ty op x y ≡ some w)
    × IsWrapped sign bits (exact op (to_ℤ x) (to_ℤ y)) w

wrap_exact :
    (ptr_width : ℕ) (ty : Ty) (sign : Bool) (bits : ℕ) (x : Anyint) (z : ℤ)
    → Computes x z
    → int_shape ptr_width ty ≡ some (sign, bits)
    → (sign ≡ true → 0 < bits)
    → (w : Anyint) × (wrap_int_value ptr_width ty x ≡ some w) × IsWrapped sign bits z w
wrap_exact ptr_width ty sign bits x z h shape some_bits =
    let (w, e, r) = wrap_int_value_lem ptr_width ty x sign bits h.0 shape some_bits in
    (w, e, subst (λ n. IsWrapped sign bits n w) h.1 r)

-- At a machine type, compile-time `+`, `-` and `*` return the exact result modulo `2 ^ bits`, in
-- the range of the type.
pub fold_arith-Wraps :
    (ptr_width : ℕ) (ty : Ty) (op : ArithOp) (x y : Anyint) (sign : Bool) (bits : ℕ)
    → IsWrapping op
    → IsValid x
    → IsValid y
    → int_shape ptr_width ty ≡ some (sign, bits)
    → (sign ≡ true → 0 < bits)
    → Wraps op ptr_width ty sign bits x y
unfolding fold_arith
fold_arith-Wraps pw ty ArithOp.add x y sign bits op v w shape h =
    wrap_exact pw ty sign bits (Sign.add x y) _ (add_lem x y v w) shape h
fold_arith-Wraps pw ty ArithOp.sub x y sign bits op v w shape h =
    wrap_exact pw ty sign bits (Sign.sub x y) _ (sub_lem x y v w) shape h
fold_arith-Wraps pw ty ArithOp.mul x y sign bits op v w shape h =
    let (z, returned, c) = mul_lem x y v w in rw returned (wrap_exact pw ty sign bits z _ c shape h)
fold_arith-Wraps pw ty ArithOp.add_sat x y sign bits op v w shape h = absurd op
fold_arith-Wraps pw ty ArithOp.sub_sat x y sign bits op v w shape h = absurd op
fold_arith-Wraps pw ty ArithOp.mul_sat x y sign bits op v w shape h = absurd op
fold_arith-Wraps pw ty ArithOp.div x y sign bits op v w shape h = absurd op
fold_arith-Wraps pw ty ArithOp.rem x y sign bits op v w shape h = absurd op

-- The result `r` is outside the range of a `bits` wide type.
abbrev pub Escapes : ArithOp → ℕ → Ty → Bool → ℕ → Anyint → Anyint → Type 0
Escapes op ptr_width ty sign bits x y =
    (r : Anyint) × (fold_arith ptr_width ty op x y ≡ some r) × (¬ IsInRange sign bits (to_ℤ r))

-- The saturating operations do not saturate at compile time: where the exact result is outside
-- the range of the type, so is what they return.
pub fold_arith-Escapes :
    (ptr_width : ℕ) (ty : Ty) (op : ArithOp) (x y : Anyint) (sign : Bool) (bits : ℕ)
    → IsSaturating op
    → IsValid x
    → IsValid y
    → ¬ IsInRange sign bits (exact op (to_ℤ x) (to_ℤ y))
    → Escapes op ptr_width ty sign bits x y
unfolding fold_arith
fold_arith-Escapes pw ty ArithOp.add_sat x y sign bits op v w out =
    (Sign.add x y, refl, λ h. out (subst (IsInRange sign bits) (add_lem x y v w).1 h))
fold_arith-Escapes pw ty ArithOp.sub_sat x y sign bits op v w out =
    (Sign.sub x y, refl, λ h. out (subst (IsInRange sign bits) (sub_lem x y v w).1 h))
fold_arith-Escapes pw ty ArithOp.mul_sat x y sign bits op v w out =
    let (z, returned, c) = mul_lem x y v w in
    (z, returned, λ h. out (subst (IsInRange sign bits) c.1 h))
fold_arith-Escapes pw ty ArithOp.add x y sign bits op v w out = absurd op
fold_arith-Escapes pw ty ArithOp.sub x y sign bits op v w out = absurd op
fold_arith-Escapes pw ty ArithOp.mul x y sign bits op v w out = absurd op
fold_arith-Escapes pw ty ArithOp.div x y sign bits op v w out = absurd op
fold_arith-Escapes pw ty ArithOp.rem x y sign bits op v w out = absurd op

-- What a comparison means.
abbrev pub Holds : CmpOp → ℤ → ℤ → Type 0
Holds CmpOp.eq_op a b = a ≡ b
Holds CmpOp.neq_op a b = a ≢ b
Holds CmpOp.lt_op a b = a <ℤ b
Holds CmpOp.lte_op a b = a ≤ℤ b
Holds CmpOp.gt_op a b = b <ℤ a
Holds CmpOp.gte_op a b = b ≤ℤ a

abbrev pub IsOrder : CmpOp → Type 0
IsOrder CmpOp.eq_op = ⊥
IsOrder CmpOp.neq_op = ⊥
IsOrder _ = Unit

cmp_comptime_order :
    (op : CmpOp) (a b : ℤ) → IsOrder op → (cmp_comptime op (compare_ℤ a b) ≡ true) ↔ Holds op a b
unfolding cmp_comptime
cmp_comptime_order CmpOp.lt_op a b h = ground arith
cmp_comptime_order CmpOp.lte_op a b h = ground arith
cmp_comptime_order CmpOp.gt_op a b h = ground arith
cmp_comptime_order CmpOp.gte_op a b h = ground arith
cmp_comptime_order CmpOp.eq_op a b h = absurd h
cmp_comptime_order CmpOp.neq_op a b h = absurd h

-- Compile-time `<`, `<=`, `>` and `>=` decide the order of the integers.
pub fold_cmp_iff :
    (op : CmpOp) (x y : Anyint)
    → IsOrder op
    → IsValid x
    → IsValid y
    → (fold_cmp op x y ≡ true) ↔ Holds op (to_ℤ x) (to_ℤ y)
unfolding fold_cmp
fold_cmp_iff op x y h v w = rw (cmp_lem x y v w) (cmp_comptime_order op (to_ℤ x) (to_ℤ y) h)

equality_lem :
    (a b : ℤ)
    → ((cmp_comptime CmpOp.eq_op (compare_ℤ a b) ≡ true) ↔ (b ≤ℤ a))
      × ((cmp_comptime CmpOp.neq_op (compare_ℤ a b) ≡ true) ↔ (b ≤ℤ a))
unfolding cmp_comptime
equality_lem a b = (ground arith, ground arith)

-- Compile-time `==` and `!=` are both `>=`: each of them returns true exactly when the first
-- integer is not below the second.
pub fold_cmp_equality_wrong :
    (x y : Anyint)
    → IsValid x
    → IsValid y
    → ((fold_cmp CmpOp.eq_op x y ≡ true) ↔ (to_ℤ y ≤ℤ to_ℤ x))
      × ((fold_cmp CmpOp.neq_op x y ≡ true) ↔ (to_ℤ y ≤ℤ to_ℤ x))
unfolding fold_cmp
fold_cmp_equality_wrong x y v w = rw (cmp_lem x y v w) (equality_lem (to_ℤ x) (to_ℤ y))
