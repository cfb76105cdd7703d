-- ===== src/Anyint.antt =====
-- src/int.rs, the arbitrary precision integer `Anyint` of compile-time evaluation.
pub mod Limbs
pub mod Sum
pub mod Compare
pub mod Product
pub mod Small
pub mod Shift
pub mod Width
pub mod Sign
pub mod Arith
pub mod Range
pub mod SetBit
pub mod Division
pub mod Natural
pub mod LongDivision
pub mod Quotient
pub mod Twos
pub mod Bitwise
pub mod Convert
pub mod Scale
pub mod Numeral
pub mod Parse
pub mod Display
pub mod Tests
