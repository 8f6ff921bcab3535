-- ===== src/Prelude/Bits.antt =====
-- The bitwise operators on the native numbers as arithmetic.
mod Digit
mod Fields
mod Mask
mod Xor
pub use Digit.{zero-bit_or, zero-bit_xor, bit_or-zero, bit_xor-zero, bit_and-zero}
pub use Fields.*
pub use Mask.*
pub use Xor.*
