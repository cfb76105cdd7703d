-- ===== src/Layout/Passing.antt =====
-- src/codegen/abi.rs: when a value is passed as an integer and when by reference.
use vif.Prelude.{
  ◌≢◌, ◌↔◌, suc, zero, ◌^◌, refl, ◌⊎◌, ◌↔◌, ◌^◌, true, inl, inr, arith, ◌≤◌, Bool-cases, ◌≡◌, ℕ,
  ◌==◌, Option, none, some,
}
use vif.Sema.Types.{Ty}
use vif.Layout.Store.{Layout, Store}
use vif.Layout.Types.{type_layout}
use vif.Layout.Abi.{
  Repr, Use, Target, is_register_size, aggregate, compute_type_abi_win64, compute_type_abi_c,
}

-- The types with fields or elements.
abbrev pub IsAggregate : Ty → Type 0
IsAggregate (Ty.array id) = Unit
IsAggregate (Ty.slice id) = Unit
IsAggregate (Ty.struct id) = Unit
IsAggregate (Ty.union id) = Unit
IsAggregate _ = ⊥

-- A parameter that no register holds.
abbrev pub IsWideParam : Ty → Use → Type 0
IsWideParam Ty.f128 Use.param = Unit
IsWideParam _ _ = ⊥

-- The one target that the code is complete for.
abbrev pub IsWindows : Target → Type 0
IsWindows Target.x86_64_windows = Unit
IsWindows _ = ⊥

-- A power of two of at most 8 bytes.
abbrev pub IsRegisterSize : ℕ → Type 0
IsRegisterSize n = (k : ℕ) × (k ≤ 3) × (n ≡ 2 ^ k)

abbrev pub FitsRegister : Option Layout → Type 0
FitsRegister none = ⊥
FitsRegister (some l) = IsRegisterSize (l.size)

abbrev pub ExceedsRegister : Option Layout → Type 0
ExceedsRegister none = ⊥
ExceedsRegister (some l) = ¬ IsRegisterSize (l.size)

-- When a value is passed as an integer, and when by reference: on a target (`W`), for an aggregate
-- (`A`) of the layout `l?`, or a wide parameter (`P`).
abbrev pub IsPassed : Type 0 → Type 0 → Type 0 → Option Layout → Option Repr → Type 0
IsPassed W A P l? r =
    ((r ≡ some Repr.as_integer) ↔ (W × (A × FitsRegister l?)))
    × ((r ≡ some Repr.by_ref) ↔ (W × ((A × ExceedsRegister l?) ⊎ P)))

is_register_size_iff : (n : ℕ) → (is_register_size n ≡ true) ↔ IsRegisterSize n
is_register_size_iff n = (sizes, is_size)
  where
    sizes : is_register_size n ≡ true → IsRegisterSize n
    sizes h = elim (Bool-cases (n == 1)) [
      | inl e ↦ (0, omega arith, ground arith)
      | inr e ↦ elim (Bool-cases (n == 2)) [
        | inl f ↦ (1, omega arith, ground arith)
        | inr f ↦ elim (Bool-cases (n == 4)) [
          | inl g ↦ (2, omega arith, ground arith)
          | inr g ↦ (3, omega arith, ground arith)
        ]
      ]
    ]

    is_size : IsRegisterSize n → is_register_size n ≡ true
    is_size (zero, h, e) = rw e refl
    is_size (suc zero, h, e) = rw e refl
    is_size (suc (suc zero), h, e) = rw e refl
    is_size (suc (suc (suc zero)), h, e) = rw e refl
    is_size (suc (suc (suc (suc k))), h, e) = absurd (omega arith)

-- Neither an integer nor a reference, where the two conditions fail.
plain-IsPassed :
    (W A P : Type 0) (l? : Option Layout) (r : Option Repr)
    → ¬ (W × (A ⊎ P))
    → r ≢ some Repr.as_integer
    → r ≢ some Repr.by_ref
    → IsPassed W A P l? r
plain-IsPassed W A P l? r fails not_int not_ref = (
  (λ e. absurd (not_int e), λ (w, (a, f)). absurd (fails (w, inl a))),
  (
    λ e. absurd (not_ref e),
    λ (w, s). absurd (fails (w, elim s [ inl (a, f) ↦ inl a | inr p ↦ inr p ])),
  ),
)

never : ¬ (Unit {0} × (⊥ ⊎ ⊥))
never (w, inl a) = a
never (w, inr p) = p

value-IsPassed : (l? : Option Layout) → IsPassed Unit ⊥ ⊥ l? (some Repr.by_value)
value-IsPassed l? = plain-IsPassed Unit ⊥ ⊥ l? _ never (λ e. cc) (λ e. cc)

none-IsPassed : (l? : Option Layout) → IsPassed Unit ⊥ ⊥ l? none
none-IsPassed l? = plain-IsPassed Unit ⊥ ⊥ l? none never (λ e. cc) (λ e. cc)

wide-IsPassed : (l? : Option Layout) → IsPassed Unit ⊥ Unit l? (some Repr.by_ref)
wide-IsPassed l? = ((λ e. absurd cc, λ (w, (a, f)). absurd a), (λ e. (tt, inr tt), λ h. refl))

aggregate-IsPassed : (l? : Option Layout) → IsPassed Unit Unit ⊥ l? (aggregate l?)
aggregate-IsPassed none = (
  (λ e. absurd cc, λ (w, (a, f)). absurd f),
  (λ e. absurd cc, λ (w, s). elim s [ inl (a, f) ↦ absurd f | inr p ↦ absurd p ]),
)
aggregate-IsPassed (some l) = elim (Bool-cases (is_register_size (l.size))) [
  | inl e ↦
      let fits = (is_register_size_iff (l.size)).0 e in
      rw e (
        (λ h. (tt, (tt, fits)), λ h. refl),
        (λ h. absurd cc, λ (w, s). elim s [ inl (a, f) ↦ absurd (f fits) | inr p ↦ absurd p ]),
      )
  | inr e ↦
      let exceeds : ¬ IsRegisterSize (l.size) =
        λ f. let g = (is_register_size_iff (l.size)).1 f in cc in
      rw e (
        (λ h. absurd cc, λ (w, (a, f)). absurd (exceeds f)),
        (λ h. (tt, inl (tt, exceeds)), λ h. refl),
      )
]

win64-IsPassed :
    (s : Store) (fuel : ℕ) (ty : Ty) (use_ : Use)
    → IsPassed Unit
        (IsAggregate ty)
        (IsWideParam ty use_)
        (type_layout s fuel ty)
        (compute_type_abi_win64 s fuel ty use_)
unfolding compute_type_abi_win64
win64-IsPassed s fuel (Ty.ptr id) use_ = value-IsPassed (type_layout s fuel (Ty.ptr id))
win64-IsPassed s fuel (Ty.int signed bits) use_ =
    value-IsPassed (type_layout s fuel (Ty.int signed bits))
win64-IsPassed s fuel Ty.bool use_ = value-IsPassed (type_layout s fuel Ty.bool)
win64-IsPassed s fuel (Ty.enum id) use_ = value-IsPassed (type_layout s fuel (Ty.enum id))
win64-IsPassed s fuel Ty.usize use_ = value-IsPassed (type_layout s fuel Ty.usize)
win64-IsPassed s fuel Ty.isize use_ = value-IsPassed (type_layout s fuel Ty.isize)
win64-IsPassed s fuel Ty.f16 use_ = value-IsPassed (type_layout s fuel Ty.f16)
win64-IsPassed s fuel Ty.f32 use_ = value-IsPassed (type_layout s fuel Ty.f32)
win64-IsPassed s fuel Ty.f64 use_ = value-IsPassed (type_layout s fuel Ty.f64)
win64-IsPassed s fuel Ty.void use_ = value-IsPassed (type_layout s fuel Ty.void)
win64-IsPassed s fuel (Ty.array id) use_ = aggregate-IsPassed (type_layout s fuel (Ty.array id))
win64-IsPassed s fuel (Ty.slice id) use_ = aggregate-IsPassed (type_layout s fuel (Ty.slice id))
win64-IsPassed s fuel (Ty.struct id) use_ = aggregate-IsPassed (type_layout s fuel (Ty.struct id))
win64-IsPassed s fuel (Ty.union id) use_ = aggregate-IsPassed (type_layout s fuel (Ty.union id))
win64-IsPassed s fuel Ty.f128 Use.param = wide-IsPassed (type_layout s fuel Ty.f128)
win64-IsPassed s fuel Ty.f128 Use.return = value-IsPassed (type_layout s fuel Ty.f128)
win64-IsPassed s fuel (Ty.fn id) use_ = none-IsPassed (type_layout s fuel (Ty.fn id))
win64-IsPassed s fuel Ty.anyint use_ = none-IsPassed (type_layout s fuel Ty.anyint)
win64-IsPassed s fuel Ty.anyfloat use_ = none-IsPassed (type_layout s fuel Ty.anyfloat)
win64-IsPassed s fuel Ty.null_ptr use_ = none-IsPassed (type_layout s fuel Ty.null_ptr)
win64-IsPassed s fuel Ty.anyptr use_ = none-IsPassed (type_layout s fuel Ty.anyptr)
win64-IsPassed s fuel Ty.type use_ = none-IsPassed (type_layout s fuel Ty.type)
win64-IsPassed s fuel Ty.never use_ = none-IsPassed (type_layout s fuel Ty.never)
win64-IsPassed s fuel Ty.enum_literal use_ = none-IsPassed (type_layout s fuel Ty.enum_literal)
win64-IsPassed s fuel Ty.generic_poison use_ = none-IsPassed (type_layout s fuel Ty.generic_poison)

-- On every target, a value is passed as an integer exactly when the target is Windows on x86-64 and
-- the type is an array, slice, structure or union whose layout is of 1, 2, 4 or 8 bytes, and by
-- reference exactly when the target is that one and the type is one of these with a layout of
-- another size, or the value is a parameter of type f128.
pub compute_type_abi_c-IsPassed :
    (target : Target) (s : Store) (fuel : ℕ) (ty : Ty) (use_ : Use)
    → IsPassed
        (IsWindows target)
        (IsAggregate ty)
        (IsWideParam ty use_)
        (type_layout s fuel ty)
        (compute_type_abi_c target s fuel ty use_)
unfolding compute_type_abi_c
compute_type_abi_c-IsPassed Target.x86_64_windows s fuel ty use_ = win64-IsPassed s fuel ty use_
compute_type_abi_c-IsPassed Target.x86_64_linux s fuel ty use_ =
    plain-IsPassed ⊥ _ _ _ _ (λ h. h.0) (λ e. cc) (λ e. cc)
compute_type_abi_c-IsPassed Target.aarch64_darwin s fuel ty use_ =
    plain-IsPassed ⊥ _ _ _ _ (λ h. h.0) (λ e. cc) (λ e. cc)
compute_type_abi_c-IsPassed Target.other s fuel ty use_ =
    plain-IsPassed ⊥ _ _ _ _ (λ h. h.0) (λ e. cc) (λ e. cc)
