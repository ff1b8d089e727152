-- ===== src/Decode/Cases.antt =====
-- The tables of cases of `lookup_opcode`.
mod Registers
mod Others
unfoldable pub use Registers.*
unfoldable pub use Others.*
