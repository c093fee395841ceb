-- ===== src/Display.antt =====
-- The display, firmware/golfer/src/display: here the states that mod.rs declares, in Target what is
-- asked of the driver, in Ui and BootScreen the two pages, and in Facade the operations of `Display`.
pub mod Target
pub mod Ui
pub mod BootScreen
pub mod Facade
pub mod Pixels
pub mod Rows
pub mod Fits
pub mod Values
pub mod Changes
pub mod General
pub mod Statuses
pub mod Boot
pub mod Calm
pub mod Refinement
pub mod Contents
pub mod Coordinate
mod Tests
use golfer.Prelude.{ℕ, Bool, false, Option, none, some}
use golfer.Prelude.Int.{ℤ}

pub data RadioLinkState : Type 0 where
  waiting connected lost : RadioLinkState

pub record RadioDisplayState : Type 0 where
  pub link : RadioLinkState
  pub sequence : Option ℕ
  pub rssi : Option ℤ
  pub snr : Option ℤ
  pub received : ℕ
  pub missed : ℕ

abbrev pub radio_waiting : RadioDisplayState
radio_waiting = record {
  link = waiting;
  sequence = none;
  rssi = none;
  snr = none;
  received = 0;
  missed = 0;
}

abbrev pub radio_connected : ℕ → ℤ → ℤ → ℕ → ℕ → RadioDisplayState
radio_connected sequence rssi snr received missed = record {
  link = connected;
  sequence = some sequence;
  rssi = some rssi;
  snr = some snr;
  received = received;
  missed = missed;
}

abbrev pub radio_lost : Option ℕ → Option ℤ → Option ℤ → ℕ → ℕ → RadioDisplayState
radio_lost sequence rssi snr received missed = record {
  link = lost;
  sequence = sequence;
  rssi = rssi;
  snr = snr;
  received = received;
  missed = missed;
}

pub data DisplayPage : Type 0 where
  boot general : DisplayPage

pub data InitStatus : Type 0 where
  initializing okay nok : InitStatus

pub data InitSubsystem : Type 0 where
  system display sd_card gps lora : InitSubsystem

pub record BootStatus : Type 0 where
  pub system_status : InitStatus
  pub display_status : InitStatus
  pub sd_card_status : InitStatus
  pub gps_status : InitStatus
  pub lora_status : InitStatus

-- By the time that this is shown, the system and the display are initialized.
abbrev pub starting : BootStatus
starting = record {
  system_status = okay;
  display_status = okay;
  sd_card_status = initializing;
  gps_status = initializing;
  lora_status = initializing;
}

abbrev pub set_status : InitSubsystem → InitStatus → BootStatus → BootStatus
set_status system status b = record b { system_status = status }
set_status display status b = record b { display_status = status }
set_status sd_card status b = record b { sd_card_status = status }
set_status gps status b = record b { gps_status = status }
set_status lora status b = record b { lora_status = status }

pub record GpsDisplayState : Type 0 where
  pub online : Bool
  pub fix : Bool
  pub latitude_e7 : Option ℤ
  pub longitude_e7 : Option ℤ
  pub satellites : Option ℕ

abbrev pub gps_offline : GpsDisplayState
gps_offline = record {
  online = false;
  fix = false;
  latitude_e7 = none;
  longitude_e7 = none;
  satellites = none;
}
