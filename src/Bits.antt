-- ===== src/Bits.antt =====
-- The laws of `&`, `|` and `^` on numbers of any width.
mod Step
mod Xor
mod Fields
pub mod Digits
pub use Step.*
pub use Xor.*
pub use Fields.*
