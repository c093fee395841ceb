-- ===== src/Gps.antt =====
-- The PA1616S receiver, firmware/golfer/src/gps.rs: from the bytes of the UART to the latest state.
pub mod Digits
pub mod Decimal
pub mod Calendar
pub mod Clock
pub mod Coordinate
pub mod State
mod Tests
