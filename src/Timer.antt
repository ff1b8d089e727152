-- ===== src/Timer.antt =====
-- Parts of the timers (src/hwtimer).
pub mod Prescaler
pub mod Unit
pub mod IrqRegister
pub mod Timer8
pub mod Timer16
