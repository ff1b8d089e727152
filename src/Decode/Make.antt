-- ===== src/Decode/Make.antt =====
-- The constructors of the instruction classes, which decode the operands.
mod Arith
mod Transfer
mod Control
unfoldable pub use Arith.*
unfoldable pub use Transfer.*
unfoldable pub use Control.*
