-- ===== src/Serial.antt =====
-- The serial interfaces (src/hwuart.h, src/hwuart.cpp).
pub mod Uart
