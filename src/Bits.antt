-- ===== src/Bits.antt =====
-- Binary digits of the native numbers: what `&`, `|`, `^`, `~` and the shifts do to each of them.
mod Step
mod Digit
mod Shift
mod Fields
pub use Step.*
pub use Digit.*
pub use Shift.*
pub use Fields.*
pub use Prim.Native.Nat.{bit_and, bit_or, bit_xor}
