-- ===== src/Decode.antt =====
-- The instruction decoder (src/decoder.h, src/decoder.cpp).
pub mod Fields
pub mod Instruction
pub mod Make
pub mod Case
pub mod Cases
pub mod Lookup
pub mod Encode
pub mod Table
pub mod Limits
pub mod RoundTrip
pub mod Width
