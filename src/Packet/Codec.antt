-- ===== src/Packet/Codec.antt =====
-- `TelemetryV1::encode`, `TelemetryV1::decode`, `crc32_details` and the readers of
-- firmware/golfer/src/packet.rs. A frame is a list of bytes.
use Prim.Native.Nat.{bit_and, bit_or}
use golfer.Prelude.{
  ℕ, ◌*◌, ◌/◌, ◌%◌, ◌^◌, not, Option, none, some, List, length, get_or, set, take, replicate,
  copy_at, ◌==◌, if◌then◌else◌,
}
use golfer.Prelude.Int.{ℤ, to_bits, of_bits, i16_half, i32_half}
use golfer.Prelude.Bytes.{to_le_bytes, read_le}
use golfer.Prelude.Results.{Result, ok, reject, map_err, ◌>>◌}
use golfer.Crc.{crc32_ieee}
use golfer.Packet.{
  GpsFixClass, no_fix, standard, differential, enhanced_or_other, fix_class_bits, TelemetryV1,
  EncodeError, DecodeError, wrong_length, bad_marker, unsupported_version, unsupported_packet_type,
  crc_mismatch, invalid_field, telemetry_v1_len, telemetry_v1_crc_offset, protocol_marker,
  protocol_version, packet_type_telemetry, unknown_u8, unknown_u16, unknown_i16, unknown_u32,
  unknown_i32, is_int, validate,
}

-- `value.unwrap_or(unknown)`
abbrev pub or_unknown {ℓ} : {A : Type ℓ} → A → Option A → A
or_unknown unknown none = unknown
or_unknown unknown (some a) = a

-- The body of `encode` behind the field checks, without the CRC.
unfoldable pub fields_written : TelemetryV1 → List ℕ
unfolding fix_class_bits to_bits
fields_written p =
    let out = replicate telemetry_v1_len 0 in
    let out = set out 0 protocol_marker in
    let out = set out 1 protocol_version in
    let out =
      set out 2 (bit_or (packet_type_telemetry * 2 ^ 4 % 2 ^ 8) (bit_and p.sender_mode 0x0F)) in
    let out = copy_at out 3 (to_le_bytes 8 p.sender_system_id) in
    let out = copy_at out 11 (to_le_bytes 4 p.survey_id) in
    let out = copy_at out 15 (take 3 (to_le_bytes 4 p.sequence)) in
    let out = copy_at out 18 (to_le_bytes 4 (or_unknown unknown_u32 p.gps_unix_time)) in
    let out =
      copy_at out 22 (to_le_bytes 4 (to_bits i32_half (or_unknown unknown_i32 p.latitude_e7))) in
    let out =
      copy_at out 26 (to_le_bytes 4 (to_bits i32_half (or_unknown unknown_i32 p.longitude_e7))) in
    let out =
      copy_at out 30
        (to_le_bytes 2 (to_bits i16_half (or_unknown unknown_i16 p.altitude_half_m))) in
    let out = copy_at out 32 (to_le_bytes 2 (or_unknown unknown_u16 p.speed_cm_s)) in
    let out = copy_at out 34 (to_le_bytes 2 (or_unknown unknown_u16 p.course_cdeg)) in
    let out =
      set out 36
        (bit_or (fix_class_bits p.gps_fix_class * 2 ^ 6 % 2 ^ 8) (bit_and p.satellites 0x3F)) in
    let out = set out 37 (or_unknown unknown_u8 p.hdop_tenths) in
    let out =
      copy_at out 38
        (to_le_bytes 2 (to_bits i16_half (or_unknown unknown_i16 p.temperature_centi_c))) in
    let out = copy_at out 40 (to_le_bytes 2 (or_unknown unknown_u16 p.pressure_10pa)) in
    let out = set out 42 (or_unknown unknown_u8 p.humidity_half_percent) in
    set out 43 (or_unknown unknown_u8 p.battery_soc_percent)

-- The CRC over the first 44 bytes goes into the last four.
unfoldable pub with_crc : List ℕ → List ℕ
with_crc out =
    copy_at out telemetry_v1_crc_offset
      (to_le_bytes 4 (crc32_ieee (take telemetry_v1_crc_offset out)))

unfoldable pub encode : TelemetryV1 → Result EncodeError (List ℕ)
encode p = do validate p; ok (with_crc (fields_written p))

-- `bytes[i]`, in range where `decode` reads it.
abbrev pub byte_at : List ℕ → ℕ → ℕ
byte_at bytes i = get_or bytes i 0

-- `(value != unknown).then_some(value)`
unfoldable pub decode_optional : ℕ → ℕ → Option ℕ
decode_optional unknown value = if not (value == unknown) then some value else none

unfoldable pub decode_optional_int : ℤ → ℤ → Option ℤ
decode_optional_int unknown value = if not (is_int value unknown) then some value else none

-- `GpsFixClass::from_bits`
unfoldable pub from_bits : ℕ → GpsFixClass
from_bits bits =
    let low = bit_and bits 0x03 in
    if low == 0
    then no_fix
    else if low == 1
    then standard
    else if low == 2
    then differential
    else enhanced_or_other

-- The packet that `decode` builds from a frame.
unfoldable pub fields_read : List ℕ → TelemetryV1
unfolding decode_optional decode_optional_int from_bits of_bits
fields_read bytes =
    let gps_meta = byte_at bytes 36 in
    record {
      sender_mode = bit_and (byte_at bytes 2) 0x0F;
      sender_system_id = read_le 8 bytes 3;
      survey_id = read_le 4 bytes 11;
      sequence =
          bit_or (bit_or (byte_at bytes 15) (byte_at bytes 16 * 2 ^ 8)) (byte_at bytes 17 * 2 ^ 16);
      gps_unix_time = decode_optional unknown_u32 (read_le 4 bytes 18);
      latitude_e7 = decode_optional_int unknown_i32 (of_bits i32_half (read_le 4 bytes 22));
      longitude_e7 = decode_optional_int unknown_i32 (of_bits i32_half (read_le 4 bytes 26));
      altitude_half_m = decode_optional_int unknown_i16 (of_bits i16_half (read_le 2 bytes 30));
      speed_cm_s = decode_optional unknown_u16 (read_le 2 bytes 32);
      course_cdeg = decode_optional unknown_u16 (read_le 2 bytes 34);
      gps_fix_class = from_bits (gps_meta / 2 ^ 6);
      satellites = bit_and gps_meta 0x3F;
      hdop_tenths = decode_optional unknown_u8 (byte_at bytes 37);
      temperature_centi_c = decode_optional_int unknown_i16 (of_bits i16_half (read_le 2 bytes 38));
      pressure_10pa = decode_optional unknown_u16 (read_le 2 bytes 40);
      humidity_half_percent = decode_optional unknown_u8 (byte_at bytes 42);
      battery_soc_percent = decode_optional unknown_u8 (byte_at bytes 43);
    }

-- The checks that `decode` makes before it reads a field.
unfoldable pub check_frame : List ℕ → Result DecodeError (Unit {0})
check_frame bytes = do
  reject (not (length bytes == telemetry_v1_len)) wrong_length
  reject (not (byte_at bytes 0 == protocol_marker)) bad_marker
  reject (not (byte_at bytes 1 == protocol_version)) unsupported_version
  reject (not (byte_at bytes 2 / 2 ^ 4 == packet_type_telemetry)) unsupported_packet_type
  reject (not (read_le 4 bytes 44 == crc32_ieee (take telemetry_v1_crc_offset bytes))) crc_mismatch

unfoldable pub decode : List ℕ → Result DecodeError TelemetryV1
decode bytes = do
  check_frame bytes
  let packet = fields_read bytes
  map_err invalid_field (validate packet)
  ok packet

-- The stored and the computed CRC, for diagnostics.
unfoldable pub crc32_details : List ℕ → Option (ℕ × ℕ)
crc32_details bytes =
    if length bytes == telemetry_v1_len
    then some (read_le 4 bytes 44, crc32_ieee (take telemetry_v1_crc_offset bytes))
    else none
