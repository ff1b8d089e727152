-- ===== src/Periph.antt =====
-- Peripherals that the core calls.
pub mod Eeprom
pub mod Fuses
pub mod Wado
pub mod Spm
