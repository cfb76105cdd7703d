-- ===== src/Sema.antt =====
-- src/compile_unit/sema.rs and src/value.rs: types, and operations evaluated at compile time.
pub mod Types
pub mod Wrap
pub mod Comptime
pub mod Fold
pub mod Bitwise
pub mod Shifts
pub mod Tests
