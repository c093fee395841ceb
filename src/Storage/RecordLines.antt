-- ===== src/Storage/RecordLines.antt =====
-- The lines of EVENT.LOG, LOCAL.LOG and RX.LOG, as firmware/golfer/src/storage.rs formats them.
use golfer.Prelude.{
  ℕ, ◌+◌, Bool, true, false, Option, none, some, List, [], ◌∷◌, ◌++◌, length, leb, ◌==◌,
  if◌then◌else◌, ◌>>=◌,
}
use golfer.Prelude.Int.{ℤ}
use golfer.Prelude.Text.{codes}
use golfer.Prelude.Format.{decimal_text, signed_text, hex_upper}
use golfer.Gps.State.{GpsState}
use golfer.Packet.{TelemetryV1, fix_class_bits}

-- What `log_local_sample` is given.
pub record LocalSample : Type 0 where
  pub mono_ms : ℕ
  pub gps : GpsState
  pub link_up : Bool
  pub last_rssi : Option ℤ
  pub last_snr : Option ℤ
  pub received : ℕ
  pub missed : ℕ
  pub app_crc_failures : ℕ

-- What `log_receiver_packet` is given.
pub record Reception : Type 0 where
  pub mono_ms : ℕ
  pub telemetry : TelemetryV1
  pub rssi : ℤ
  pub snr : ℤ
  pub received : ℕ
  pub missed : ℕ
  pub app_crc_failures : ℕ
  pub local_gps : GpsState

-- `append_optional_u64`, `append_optional_u32`, `append_optional_u16` and `append_optional_u8`.
abbrev pub optional_unsigned : Option ℕ → List ℕ
optional_unsigned (some value) = decimal_text value
optional_unsigned none = codes "NA"

-- `append_optional_i32` and `append_optional_i16`.
abbrev pub optional_signed : Option ℤ → List ℕ
optional_signed (some value) = signed_text value
optional_signed none = codes "NA"

-- `as u8`
abbrev pub bool_bit : Bool → ℕ
bool_bit true = 1
bool_bit false = 0

-- Pieces written one by one to a `String` of a capacity, which holds a line already; the first that
-- does not fit is an error.
abbrev pub written : ℕ → List (List ℕ) → List ℕ → Option (List ℕ)
written capacity [] line = some line
written capacity (piece ∷ pieces) line =
    let rest = written capacity pieces (line ++ piece) in
    if leb (length line + length piece) capacity then rest else none

abbrev event_pieces : ℕ → Option ℕ → List ℕ → GpsState → List (List ℕ)
event_pieces mono_ms utc event_id gps =
    codes "MONO_MS="
    ∷ decimal_text mono_ms
    ∷ codes ",UTC_MS="
    ∷ optional_unsigned utc
    ∷ codes ",EVENT="
    ∷ event_id
    ∷ codes ",GPS_ONLINE="
    ∷ decimal_text (bool_bit gps.online)
    ∷ codes ",GPS_FIX="
    ∷ decimal_text (bool_bit gps.fix)
    ∷ codes ",LAT_E7="
    ∷ optional_signed gps.latitude_e7
    ∷ codes ",LON_E7="
    ∷ optional_signed gps.longitude_e7
    ∷ []

abbrev local_flags : GpsState → Bool → ℕ
local_flags gps link_up =
    1 + (if gps.online then 2 else 0) + (if gps.fix then 4 else 0) + (if link_up then 8 else 0)

abbrev pub local_pieces : Option ℕ → LocalSample → List (List ℕ)
local_pieces utc sample =
    codes "MONO_MS="
    ∷ decimal_text sample.mono_ms
    ∷ codes ",UTC_MS="
    ∷ optional_unsigned utc
    ∷ codes ",FLAGS="
    ∷ hex_upper 8 (local_flags sample.gps sample.link_up)
    ∷ codes ",GPS_ONLINE="
    ∷ decimal_text (bool_bit sample.gps.online)
    ∷ codes ",GPS_FIX="
    ∷ decimal_text (bool_bit sample.gps.fix)
    ∷ codes ",LAT_E7="
    ∷ optional_signed sample.gps.latitude_e7
    ∷ codes ",LON_E7="
    ∷ optional_signed sample.gps.longitude_e7
    ∷ codes ",ALT_HALF_M="
    ∷ optional_signed sample.gps.altitude_half_m
    ∷ codes ",SPEED_CM_S="
    ∷ optional_unsigned sample.gps.speed_cm_s
    ∷ codes ",COURSE_CDEG="
    ∷ optional_unsigned sample.gps.course_cdeg
    ∷ codes ",SATS="
    ∷ optional_unsigned sample.gps.satellites
    ∷ codes ",HDOP_TENTHS="
    ∷ optional_unsigned sample.gps.hdop_tenths
    ∷ codes ",LINK_UP="
    ∷ decimal_text (bool_bit sample.link_up)
    ∷ codes ",LAST_RSSI="
    ∷ optional_signed sample.last_rssi
    ∷ codes ",LAST_SNR="
    ∷ optional_signed sample.last_snr
    ∷ codes ",RX="
    ∷ decimal_text sample.received
    ∷ codes ",MISSED="
    ∷ decimal_text sample.missed
    ∷ codes ",APP_CRC_FAIL="
    ∷ decimal_text sample.app_crc_failures
    ∷ codes ",TEMP_CENTI_C=NA,PRESSURE_10PA=NA,HUMIDITY_HALF_PCT=NA,BATTERY_SOC=NA"
    ∷ (0x0A ∷ [])
    ∷ []

abbrev pub rx_pieces : Option ℕ → Reception → List (List ℕ)
rx_pieces utc rx =
    codes "MONO_MS="
    ∷ decimal_text rx.mono_ms
    ∷ codes ",UTC_MS="
    ∷ optional_unsigned utc
    ∷ codes ",SEQ="
    ∷ decimal_text rx.telemetry.sequence
    ∷ codes ",SENDER="
    ∷ hex_upper 16 rx.telemetry.sender_system_id
    ∷ codes ",SURVEY="
    ∷ hex_upper 8 rx.telemetry.survey_id
    ∷ codes ",MODE="
    ∷ decimal_text rx.telemetry.sender_mode
    ∷ codes ",RSSI="
    ∷ signed_text rx.rssi
    ∷ codes ",SNR="
    ∷ signed_text rx.snr
    ∷ codes ",RX="
    ∷ decimal_text rx.received
    ∷ codes ",MISSED="
    ∷ decimal_text rx.missed
    ∷ codes ",APP_CRC_FAIL="
    ∷ decimal_text rx.app_crc_failures
    ∷ codes ",LOCAL_GPS_FIX="
    ∷ decimal_text (bool_bit rx.local_gps.fix)
    ∷ codes ",LOCAL_LAT_E7="
    ∷ optional_signed rx.local_gps.latitude_e7
    ∷ codes ",LOCAL_LON_E7="
    ∷ optional_signed rx.local_gps.longitude_e7
    ∷ codes ",TX_UTC_S="
    ∷ optional_unsigned rx.telemetry.gps_unix_time
    ∷ codes ",TX_LAT_E7="
    ∷ optional_signed rx.telemetry.latitude_e7
    ∷ codes ",TX_LON_E7="
    ∷ optional_signed rx.telemetry.longitude_e7
    ∷ codes ",TX_ALT_HALF_M="
    ∷ optional_signed rx.telemetry.altitude_half_m
    ∷ codes ",TX_SPEED_CM_S="
    ∷ optional_unsigned rx.telemetry.speed_cm_s
    ∷ codes ",TX_COURSE_CDEG="
    ∷ optional_unsigned rx.telemetry.course_cdeg
    ∷ codes ",TX_FIX="
    ∷ decimal_text (fix_class_bits rx.telemetry.gps_fix_class)
    ∷ codes ",TX_SATS="
    ∷ decimal_text rx.telemetry.satellites
    ∷ codes ",TX_HDOP_TENTHS="
    ∷ optional_unsigned rx.telemetry.hdop_tenths
    ∷ codes ",TX_TEMP_CENTI_C="
    ∷ optional_signed rx.telemetry.temperature_centi_c
    ∷ codes ",TX_PRESSURE_10PA="
    ∷ optional_unsigned rx.telemetry.pressure_10pa
    ∷ codes ",TX_HUMIDITY_HALF_PCT="
    ∷ optional_unsigned rx.telemetry.humidity_half_percent
    ∷ codes ",TX_BATTERY_SOC="
    ∷ optional_unsigned rx.telemetry.battery_soc_percent
    ∷ (0x0A ∷ [])
    ∷ []

-- The details behind their comma; empty details leave none.
abbrev with_details : List ℕ → List ℕ → Option (List ℕ)
with_details details line = written 512 (codes "," ∷ details ∷ []) line >>= λ longer.
    written 512 ((0x0A ∷ []) ∷ []) (if length longer == length line + 1 then line else longer)

unfoldable pub event_line : ℕ → Option ℕ → List ℕ → GpsState → List ℕ → Option (List ℕ)
event_line mono_ms utc event_id gps details =
    written 512 (event_pieces mono_ms utc event_id gps) [] >>= with_details details

unfoldable pub local_line : Option ℕ → LocalSample → Option (List ℕ)
local_line utc sample = written 640 (local_pieces utc sample) []

unfoldable pub rx_line : Option ℕ → Reception → Option (List ℕ)
rx_line utc rx = written 960 (rx_pieces utc rx) []
