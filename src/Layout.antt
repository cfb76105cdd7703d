-- ===== src/Layout.antt =====
-- src/value.rs: the size and the alignment of types.
pub mod Store
pub mod Shape
pub mod Union
pub mod Struct
pub mod Abi
pub mod Passing
pub mod Types
pub mod Tests
