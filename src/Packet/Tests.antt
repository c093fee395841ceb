-- ===== src/Packet/Tests.antt =====
-- The golden vector of packet.rs, and `golden_self_test`.
use golfer.Prelude.{ℕ, ◌≡◌, refl, List, [], ◌∷◌, some, set, All, arith, ◌↔◌}
use golfer.Prelude.Int.{pos, negsuc}
use golfer.Prelude.Results.{ok, err}
use golfer.Crc.{crc32_ieee}
use golfer.Prelude.Bytes.{IsByte}
use golfer.Packet.{TelemetryV1, validate, standard, crc_mismatch, HasTypes, InRange}
use golfer.Packet.Validate.{validate-InRange_iff}
use golfer.Packet.RoundTrip.{decode-encode}
use golfer.Packet.Canonical.{encode-decode}
use golfer.Packet.Corruption.{decode-corrupted}
use golfer.Packet.Codec.{encode, decode, fields_written, with_crc, check_frame, fields_read}

abbrev golden_telemetry_v1 : List ℕ
golden_telemetry_v1 =
    0x47 ∷ 0x01 ∷ 0x11 ∷ 0x88 ∷ 0x77 ∷ 0x66 ∷ 0x55 ∷ 0x44 ∷ 0x33 ∷ 0x22 ∷ 0x11 ∷ 0x42 ∷ 0x00 ∷ 0x00
    ∷ 0xA0 ∷ 0x56 ∷ 0x34 ∷ 0x12 ∷ 0x03 ∷ 0x02 ∷ 0x01 ∷ 0x69 ∷ 0xAA ∷ 0xBF ∷ 0xC7 ∷ 0x14 ∷ 0xD4
    ∷ 0x35 ∷ 0x0E ∷ 0xCF ∷ 0xF7 ∷ 0x00 ∷ 0xD2 ∷ 0x04 ∷ 0xF3 ∷ 0x69 ∷ 0x4A ∷ 0x0D ∷ 0xE6 ∷ 0x09
    ∷ 0x94 ∷ 0x27 ∷ 0x5D ∷ 0x48 ∷ 0x0A ∷ 0x21 ∷ 0x1F ∷ 0x98 ∷ []

abbrev golden_packet : TelemetryV1
golden_packet = record {
  sender_mode = 1;
  sender_system_id = 0x1122_3344_5566_7788;
  survey_id = 0xA000_0042;
  sequence = 0x0012_3456;
  gps_unix_time = some 0x6901_0203;
  latitude_e7 = some (pos 348_635_050);
  longitude_e7 = some (negsuc 821_152_299);
  altitude_half_m = some (pos 247);
  speed_cm_s = some 1_234;
  course_cdeg = some 27_123;
  gps_fix_class = standard;
  satellites = 10;
  hdop_tenths = some 13;
  temperature_centi_c = some (pos 2_534);
  pressure_10pa = some 10_132;
  humidity_half_percent = some 93;
  battery_soc_percent = some 72;
}

golden_encodes : encode golden_packet ≡ ok golden_telemetry_v1
unfolding encode validate fields_written with_crc crc32_ieee
golden_encodes = refl

golden_decodes : decode golden_telemetry_v1 ≡ ok golden_packet
unfolding decode check_frame fields_read validate crc32_ieee
golden_decodes = refl

golden_passes : check_frame golden_telemetry_v1 ≡ ok tt
unfolding check_frame crc32_ieee
golden_passes = refl

golden_valid : validate golden_packet ≡ ok tt
unfolding validate
golden_valid = refl

golden_HasTypes : HasTypes golden_packet
golden_HasTypes = omega arith

validate-InRange_iff_example : (validate golden_packet ≡ ok tt) ↔ InRange golden_packet
validate-InRange_iff_example = validate-InRange_iff golden_packet

golden_InRange : InRange golden_packet
golden_InRange = (validate-InRange_iff golden_packet).0 golden_valid

decode-encode_example :
    (bytes : List ℕ) × (encode golden_packet ≡ ok bytes) × (decode bytes ≡ ok golden_packet)
decode-encode_example = decode-encode golden_packet golden_HasTypes golden_InRange

golden_bytes : All IsByte golden_telemetry_v1
golden_bytes = omega arith

encode-decode_example : encode golden_packet ≡ ok golden_telemetry_v1
encode-decode_example = encode-decode golden_telemetry_v1 golden_bytes golden_decodes

-- The corruption of `golden_self_test`.
decode-corrupted_example : decode (set golden_telemetry_v1 22 0xAB) ≡ err crc_mismatch
decode-corrupted_example =
    decode-corrupted golden_telemetry_v1 22 0xAB golden_bytes (omega arith) golden_passes
      (omega arith) (omega arith)
