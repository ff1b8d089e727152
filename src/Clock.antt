-- ===== src/Clock.antt =====
-- The time table of the simulation: its heap, and the clock that steps its members
-- (src/systemclock.h, src/systemclock.cpp).
pub mod MinHeap
pub mod System
