-- ===== src/Layout/Abi.antt =====
-- src/codegen/abi.rs, src/codegen/abi/x86_64.rs and src/codegen/abi/aarch64.rs: how a value of a type
-- is passed. A panic is `none`.
use vif.Prelude.{ℕ, Bool, ◌||◌, ◌==◌, if◌then◌else◌, Option, none, some}
use vif.Sema.Types.{Ty}
use vif.Layout.Store.{Layout, Store, ◌>>=◌}
use vif.Layout.Types.{type_layout}

pub data Repr : Type 0 where
  by_value by_ref as_integer : Repr

-- `Context`
pub data Use : Type 0 where
  param return : Use

-- The architecture and the operating system of the target, as far as the code tells them apart.
pub data Target : Type 0 where
  x86_64_windows x86_64_linux aarch64_darwin other : Target

abbrev pub is_register_size : ℕ → Bool
is_register_size n = (n == 1) || (n == 2) || (n == 4) || (n == 8)

abbrev pub aggregate_repr : Layout → Repr
aggregate_repr l = if is_register_size (l.size) then Repr.as_integer else Repr.by_ref

abbrev pub aggregate : Option Layout → Option Repr
aggregate l? = do l ← l?; some (aggregate_repr l)

abbrev pub f128_repr : Use → Repr
f128_repr Use.param = Repr.by_ref
f128_repr Use.return = Repr.by_value

-- The fuel is that of `type_layout`.
unfoldable pub compute_type_abi_win64 : Store → ℕ → Ty → Use → Option Repr
compute_type_abi_win64 s fuel (Ty.ptr id) use_ = some Repr.by_value
compute_type_abi_win64 s fuel (Ty.int signed bits) use_ = some Repr.by_value
compute_type_abi_win64 s fuel Ty.bool use_ = some Repr.by_value
compute_type_abi_win64 s fuel (Ty.enum id) use_ = some Repr.by_value
compute_type_abi_win64 s fuel Ty.usize use_ = some Repr.by_value
compute_type_abi_win64 s fuel Ty.isize use_ = some Repr.by_value
compute_type_abi_win64 s fuel Ty.f16 use_ = some Repr.by_value
compute_type_abi_win64 s fuel Ty.f32 use_ = some Repr.by_value
compute_type_abi_win64 s fuel Ty.f64 use_ = some Repr.by_value
compute_type_abi_win64 s fuel Ty.void use_ = some Repr.by_value
compute_type_abi_win64 s fuel (Ty.array id) use_ = aggregate (type_layout s fuel (Ty.array id))
compute_type_abi_win64 s fuel (Ty.slice id) use_ = aggregate (type_layout s fuel (Ty.slice id))
compute_type_abi_win64 s fuel (Ty.struct id) use_ = aggregate (type_layout s fuel (Ty.struct id))
compute_type_abi_win64 s fuel (Ty.union id) use_ = aggregate (type_layout s fuel (Ty.union id))
compute_type_abi_win64 s fuel Ty.f128 use_ = some (f128_repr use_)
compute_type_abi_win64 s fuel _ use_ = none

-- What these two have is provisional: every value is passed as it is.
abbrev pub compute_type_abi_sysv : Ty → Repr
compute_type_abi_sysv ty = Repr.by_value

abbrev pub compute_type_abi_darwin : Ty → Use → Repr
compute_type_abi_darwin ty use_ = Repr.by_value

unfoldable pub compute_type_abi_c : Target → Store → ℕ → Ty → Use → Option Repr
compute_type_abi_c Target.x86_64_windows s fuel ty use_ = compute_type_abi_win64 s fuel ty use_
compute_type_abi_c Target.x86_64_linux s fuel ty use_ = some (compute_type_abi_sysv ty)
compute_type_abi_c Target.aarch64_darwin s fuel ty use_ = some (compute_type_abi_darwin ty use_)
compute_type_abi_c Target.other s fuel ty use_ = none
