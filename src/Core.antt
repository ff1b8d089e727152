-- ===== src/Core.antt =====
-- The core of a device: state, memory, stack, flags and the execution of instructions.
pub mod Result
pub mod Alu
pub mod Device
pub mod Memory
pub mod Stack
pub mod Execute
