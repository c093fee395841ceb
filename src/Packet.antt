-- ===== src/Packet.antt =====
-- firmware/golfer/src/packet.rs: the TelemetryV1 frame. This file has the data types and the field
-- checks; `Packet/Codec` has the encoder and the decoder.
pub mod Codec
pub mod Validate
pub mod RoundTrip
pub mod Canonical
pub mod Corruption
mod Tests
use golfer.Prelude.{ℕ, ◌≤◌, ◌<◌, Bool, true, false, not, Option, none, some, ltb, ◌==◌, ◌^◌, ◌≢◌}
use golfer.Prelude.Int.{ℤ, pos, negsuc, within, Fits, i16_half, i32_half, Within}
use golfer.Prelude.Results.{Result, ok, err, reject, ◌>>=◌, ◌>>◌}

pub data GpsFixClass : Type 0 where
  no_fix standard differential enhanced_or_other : GpsFixClass

-- `as u8`
unfoldable pub fix_class_bits : GpsFixClass → ℕ
fix_class_bits no_fix = 0
fix_class_bits standard = 1
fix_class_bits differential = 2
fix_class_bits enhanced_or_other = 3

pub record TelemetryV1 : Type 0 where
  pub sender_mode : ℕ  -- u8
  pub sender_system_id : ℕ  -- u64
  pub survey_id : ℕ  -- u32
  pub sequence : ℕ  -- u32
  pub gps_unix_time : Option ℕ  -- u32
  pub latitude_e7 : Option ℤ  -- i32
  pub longitude_e7 : Option ℤ  -- i32
  pub altitude_half_m : Option ℤ  -- i16
  pub speed_cm_s : Option ℕ  -- u16
  pub course_cdeg : Option ℕ  -- u16
  pub gps_fix_class : GpsFixClass
  pub satellites : ℕ  -- u8
  pub hdop_tenths : Option ℕ  -- u8
  pub temperature_centi_c : Option ℤ  -- i16
  pub pressure_10pa : Option ℕ  -- u16
  pub humidity_half_percent : Option ℕ  -- u8
  pub battery_soc_percent : Option ℕ  -- u8

pub data EncodeError : Type 0 where
  sender_mode_out_of_range sequence_out_of_range latitude_out_of_range : EncodeError
  longitude_out_of_range altitude_uses_reserved_sentinel speed_uses_reserved_sentinel : EncodeError
  course_out_of_range too_many_satellites hdop_uses_reserved_sentinel : EncodeError
  temperature_uses_reserved_sentinel pressure_uses_reserved_sentinel : EncodeError
  humidity_out_of_range battery_soc_out_of_range gps_time_uses_reserved_sentinel : EncodeError

pub data DecodeError : Type 0 where
  wrong_length bad_marker unsupported_version unsupported_packet_type : DecodeError
  crc_mismatch invalid_field : DecodeError

abbrev pub telemetry_v1_len : ℕ
telemetry_v1_len = 48

abbrev pub telemetry_v1_crc_offset : ℕ
telemetry_v1_crc_offset = 44

abbrev pub protocol_marker : ℕ
protocol_marker = b'G'

abbrev pub protocol_version : ℕ
protocol_version = 1

abbrev pub packet_type_telemetry : ℕ
packet_type_telemetry = 1

abbrev pub max_sequence : ℕ
max_sequence = 0x00FF_FFFF

abbrev pub unknown_u32 : ℕ
unknown_u32 = 0xFFFF_FFFF

abbrev pub unknown_i32 : ℤ
unknown_i32 = negsuc 0x7FFF_FFFF

abbrev pub unknown_u16 : ℕ
unknown_u16 = 0xFFFF

abbrev pub unknown_i16 : ℤ
unknown_i16 = negsuc 0x7FFF

abbrev pub unknown_u8 : ℕ
unknown_u8 = 0xFF

abbrev pub max_latitude_e7 : ℕ
max_latitude_e7 = 900_000_000

abbrev pub max_longitude_e7 : ℕ
max_longitude_e7 = 1_800_000_000

abbrev pub max_course_cdeg : ℕ
max_course_cdeg = 35_999

abbrev pub max_humidity_half_percent : ℕ
max_humidity_half_percent = 200

abbrev pub max_battery_soc_percent : ℕ
max_battery_soc_percent = 100

abbrev pub max_satellites : ℕ
max_satellites = 63

-- `i16::MIN` and `i32::MIN` are negsuc of the largest value.
abbrev pub is_int : ℤ → ℤ → Bool
is_int (pos m) (pos n) = m == n
is_int (negsuc m) (negsuc n) = m == n
is_int (pos m) (negsuc n) = false
is_int (negsuc m) (pos n) = false

-- A value is there and passes the test: `matches!(value, Some(..))` and `if let Some(v) = value`.
abbrev pub some_with {ℓ} : {A : Type ℓ} → (A → Bool) → Option A → Bool
some_with test none = false
some_with test (some a) = test a

-- `TelemetryV1::validate`.
unfoldable pub validate : TelemetryV1 → Result EncodeError (Unit {0})
validate p = do
  reject (ltb 0x0F p.sender_mode) sender_mode_out_of_range
  reject (ltb max_sequence p.sequence) sequence_out_of_range
  reject (some_with (λ t. t == unknown_u32) p.gps_unix_time) gps_time_uses_reserved_sentinel
  reject (some_with (λ l. not (within max_latitude_e7 l)) p.latitude_e7) latitude_out_of_range
  reject (some_with (λ l. not (within max_longitude_e7 l)) p.longitude_e7) longitude_out_of_range
  reject (some_with (λ a. is_int a unknown_i16) p.altitude_half_m) altitude_uses_reserved_sentinel
  reject (some_with (λ s. s == unknown_u16) p.speed_cm_s) speed_uses_reserved_sentinel
  reject (some_with (λ c. ltb max_course_cdeg c) p.course_cdeg) course_out_of_range
  reject (ltb max_satellites p.satellites) too_many_satellites
  reject (some_with (λ h. h == unknown_u8) p.hdop_tenths) hdop_uses_reserved_sentinel
  reject (some_with (λ t. is_int t unknown_i16) p.temperature_centi_c)
      temperature_uses_reserved_sentinel
  reject (some_with (λ x. x == unknown_u16) p.pressure_10pa) pressure_uses_reserved_sentinel
  reject (some_with (λ h. ltb max_humidity_half_percent h) p.humidity_half_percent)
      humidity_out_of_range
  reject (some_with (λ b. ltb max_battery_soc_percent b) p.battery_soc_percent)
      battery_soc_out_of_range
  ok tt

-- An optional value of a type.
abbrev pub Known {ℓ κ} : {A : Type ℓ} → (A → Type κ) → Option A → Type κ
Known P none = Unit {κ}
Known P (some a) = P a

-- The ranges of the Rust types of the fields.
pub record HasTypes (p : TelemetryV1) : Type 0 where
  pub sender_mode_u8 : p.sender_mode < 2 ^ 8
  pub sender_system_id_u64 : p.sender_system_id < 2 ^ 64
  pub survey_id_u32 : p.survey_id < 2 ^ 32
  pub sequence_u32 : p.sequence < 2 ^ 32
  pub gps_unix_time_u32 : Known (λ t. t < 2 ^ 32) p.gps_unix_time
  pub latitude_e7_i32 : Known (Fits i32_half) p.latitude_e7
  pub longitude_e7_i32 : Known (Fits i32_half) p.longitude_e7
  pub altitude_half_m_i16 : Known (Fits i16_half) p.altitude_half_m
  pub speed_cm_s_u16 : Known (λ s. s < 2 ^ 16) p.speed_cm_s
  pub course_cdeg_u16 : Known (λ c. c < 2 ^ 16) p.course_cdeg
  pub satellites_u8 : p.satellites < 2 ^ 8
  pub hdop_tenths_u8 : Known (λ h. h < 2 ^ 8) p.hdop_tenths
  pub temperature_centi_c_i16 : Known (Fits i16_half) p.temperature_centi_c
  pub pressure_10pa_u16 : Known (λ x. x < 2 ^ 16) p.pressure_10pa
  pub humidity_half_percent_u8 : Known (λ h. h < 2 ^ 8) p.humidity_half_percent
  pub battery_soc_percent_u8 : Known (λ b. b < 2 ^ 8) p.battery_soc_percent

-- What the field checks ask for.
pub record InRange (p : TelemetryV1) : Type 0 where
  pub mode_nibble : p.sender_mode ≤ 0x0F
  pub sequence_24 : p.sequence ≤ max_sequence
  pub time_known : Known (λ t. t ≢ unknown_u32) p.gps_unix_time
  pub latitude_range : Known (Within max_latitude_e7) p.latitude_e7
  pub longitude_range : Known (Within max_longitude_e7) p.longitude_e7
  pub altitude_known : Known (λ a. a ≢ unknown_i16) p.altitude_half_m
  pub speed_known : Known (λ s. s ≢ unknown_u16) p.speed_cm_s
  pub course_range : Known (λ c. c ≤ max_course_cdeg) p.course_cdeg
  pub satellites_6 : p.satellites ≤ max_satellites
  pub hdop_known : Known (λ h. h ≢ unknown_u8) p.hdop_tenths
  pub temperature_known : Known (λ t. t ≢ unknown_i16) p.temperature_centi_c
  pub pressure_known : Known (λ x. x ≢ unknown_u16) p.pressure_10pa
  pub humidity_range : Known (λ h. h ≤ max_humidity_half_percent) p.humidity_half_percent
  pub battery_range : Known (λ b. b ≤ max_battery_soc_percent) p.battery_soc_percent
