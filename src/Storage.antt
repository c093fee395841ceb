-- ===== src/Storage.antt =====
-- The storage on the SD card, firmware/golfer/src/storage.rs.
pub mod Session
pub mod Presence
pub mod Diagnostics
pub mod RecordLines
pub mod Records
pub mod Setup
mod Tests
use golfer.Prelude.{ℕ, Bool, true, false}

pub data PersistentLogLevel : Type 0 where
  error warn info debug trace : PersistentLogLevel

-- `as u8`; the order of the levels is that of these numbers.
abbrev pub level_rank : PersistentLogLevel → ℕ
level_rank error = 1
level_rank warn = 2
level_rank info = 3
level_rank debug = 4
level_rank trace = 5

abbrev pub forces_persistent_flush : PersistentLogLevel → Bool
forces_persistent_flush error = true
forces_persistent_flush warn = true
forces_persistent_flush info = false
forces_persistent_flush debug = false
forces_persistent_flush trace = false
