-- ===== src/Packet/RoundTrip.antt =====
-- `decode` after `encode` (firmware/golfer/src/packet.rs).
use Prim.Native.Nat.{bit_and, bit_or}
use golfer.Prelude.{
  ℕ, ◌≤◌, ◌<◌, ◌≡◌, refl, Option, none, some, List, take, arith, ◌==◌, ◌%◌, ◌*◌, ◌+◌, ◌/◌, ◌^◌, ◌≢◌,
}
use golfer.Prelude.Bits.{bit_and_mask, bit_or_fields, bit_or_three}
use golfer.Prelude.Bytes.{to_le_bytes, from_le_bytes, from_le_bytes-to_le_bytes}
use golfer.Prelude.Int.{
  ℤ, pos, negsuc, Fits, to_bits, of_bits, of_bits-to_bits, to_bits-lt, i16_half, i32_half,
}
use golfer.Prelude.Results.{ok}
use golfer.Crc.{crc32_ieee}
use golfer.Crc.Injective.{crc32_ieee-lt}
use golfer.Packet.{
  TelemetryV1, GpsFixClass, no_fix, standard, differential, enhanced_or_other, fix_class_bits,
  HasTypes, InRange, Known, is_int, validate, true, unknown_u32, unknown_i32, unknown_i16,
  unknown_u16, unknown_u8, Within, max_longitude_e7, max_course_cdeg, max_humidity_half_percent,
  max_battery_soc_percent, max_latitude_e7,
}
use golfer.Packet.Codec.{
  fields_written, with_crc, encode, fields_read, check_frame, decode, decode_optional,
  decode_optional_int, or_unknown, from_bits,
}
use golfer.Packet.Validate.{validate-InRange_iff, is_int-false}

-- The frame of a packet, before the field checks.
abbrev frame : TelemetryV1 → List ℕ
frame p = with_crc (fields_written p)

-- The two packed bytes.
mode_byte : (mode : ℕ) → mode ≤ 0x0F → bit_or 16 (bit_and mode 0x0F) ≡ 16 + mode
mode_byte mode h = ground (arith, bit_and_mask 4 mode, bit_or_fields 4 1 mode)

read_mode : (mode : ℕ) → mode ≤ 0x0F → bit_and (bit_or 16 (bit_and mode 0x0F)) 0x0F ≡ mode
read_mode mode h = rw (mode_byte mode h) (omega (arith, bit_and_mask 4 (16 + mode)))

read_type : (mode : ℕ) → mode ≤ 0x0F → bit_or 16 (bit_and mode 0x0F) / 2 ^ 4 ≡ 1
read_type mode h = rw (mode_byte mode h) (omega arith)

meta_byte :
    (c : GpsFixClass) (sats : ℕ)
    → sats ≤ 63
    → bit_or (fix_class_bits c * 2 ^ 6 % 2 ^ 8) (bit_and sats 0x3F) ≡ fix_class_bits c * 64 + sats
unfolding fix_class_bits
meta_byte no_fix sats h = ground (arith, bit_and_mask 6 sats, bit_or_fields 6 0 sats)
meta_byte standard sats h = ground (arith, bit_and_mask 6 sats, bit_or_fields 6 1 sats)
meta_byte differential sats h = ground (arith, bit_and_mask 6 sats, bit_or_fields 6 2 sats)
meta_byte enhanced_or_other sats h = ground (arith, bit_and_mask 6 sats, bit_or_fields 6 3 sats)

from_bits-fix_class_bits : (c : GpsFixClass) → from_bits (fix_class_bits c) ≡ c
unfolding from_bits fix_class_bits
from_bits-fix_class_bits no_fix = refl
from_bits-fix_class_bits standard = refl
from_bits-fix_class_bits differential = refl
from_bits-fix_class_bits enhanced_or_other = refl

read_class :
    (c : GpsFixClass) (sats : ℕ)
    → sats ≤ 63
    → from_bits (bit_or (fix_class_bits c * 2 ^ 6 % 2 ^ 8) (bit_and sats 0x3F) / 2 ^ 6) ≡ c
read_class c sats h =
    let quotient : (fix_class_bits c * 64 + sats) / 2 ^ 6 ≡ fix_class_bits c = omega arith in
    rw (meta_byte c sats h, quotient) (from_bits-fix_class_bits c)

read_satellites :
    (c : GpsFixClass) (sats : ℕ)
    → sats ≤ 63
    → bit_and (bit_or (fix_class_bits c * 2 ^ 6 % 2 ^ 8) (bit_and sats 0x3F)) 0x3F ≡ sats
read_satellites c sats h =
    rw (meta_byte c sats h) (omega (arith, bit_and_mask 6 (fix_class_bits c * 64 + sats)))

read_sequence :
    (n : ℕ)
    → n ≤ 0x00FF_FFFF
    → bit_or (bit_or (n % 256) (n / 256 % 256 * 2 ^ 8)) (n / 256 / 256 % 256 * 2 ^ 16) ≡ n
read_sequence n h = omega (
  arith,
  bit_or_three (n % 256) (n / 256 % 256) (n / 256 / 256 % 256) (omega arith) (omega arith),
)

-- Optional values.
read_optional :
    (w unknown : ℕ) (o : Option ℕ)
    → unknown < 256 ^ w
    → Known (λ a. a < 256 ^ w) o
    → Known (λ a. a ≢ unknown) o
    → decode_optional unknown (from_le_bytes (to_le_bytes w (or_unknown unknown o))) ≡ o
unfolding decode_optional
read_optional w unknown none hu ht hk = rw (from_le_bytes-to_le_bytes w unknown hu) (ground arith)
read_optional w unknown (some a) hu ht hk = rw (from_le_bytes-to_le_bytes w a ht) (ground arith)

read_optional_byte :
    (unknown : ℕ) (o : Option ℕ)
    → Known (λ a. a ≢ unknown) o
    → decode_optional unknown (or_unknown unknown o) ≡ o
unfolding decode_optional
read_optional_byte unknown none hk = ground arith
read_optional_byte unknown (some a) hk = ground arith

is_int_refl : (a : ℤ) → is_int a a ≡ true
is_int_refl (pos n) = ground arith
is_int_refl (negsuc n) = ground arith

Known-map {ℓ κ μ} :
    {A : Type ℓ} (P : A → Type κ) (Q : A → Type μ)
    → ((a : A) → P a → Q a)
    → (o : Option A) → Known P o
    → Known Q o
Known-map P Q law none h = tt
Known-map P Q law (some a) h = law a h

Within-known : (limit : ℕ) (a : ℤ) → limit < 0x8000_0000 → Within limit a → a ≢ unknown_i32
Within-known limit (pos n) hl h = λ e. cc
Within-known limit (negsuc n) hl h = λ e. ground arith

coordinate-Known :
    (limit : ℕ) (o : Option ℤ)
    → limit < 0x8000_0000
    → Known (Within limit) o
    → Known (λ a. a ≢ unknown_i32) o
coordinate-Known limit o hl =
    Known-map (Within limit) (λ a. a ≢ unknown_i32) (λ a. Within-known limit a hl) o

number-Known :
    (limit unknown : ℕ) (o : Option ℕ)
    → limit < unknown
    → Known (λ a. a ≤ limit) o
    → Known (λ a. a ≢ unknown) o
number-Known limit unknown o hl =
    Known-map (λ a. a ≤ limit) (λ a. a ≢ unknown) (λ a h. omega arith) o

read_optional_int :
    (w half : ℕ) (unknown : ℤ) (o : Option ℤ)
    → 2 * half ≡ 256 ^ w
    → Fits half unknown
    → Known (Fits half) o
    → Known (λ a. a ≢ unknown) o
    → decode_optional_int unknown
        (of_bits half (from_le_bytes (to_le_bytes w (to_bits half (or_unknown unknown o)))))
      ≡ o
unfolding decode_optional_int
read_optional_int w half unknown none e hu ht hk = rw (
  from_le_bytes-to_le_bytes w (to_bits half unknown) (omega (arith, to_bits-lt half unknown hu)),
  of_bits-to_bits half unknown hu,
  is_int_refl unknown,
)
read_optional_int w half unknown (some a) e hu ht hk = rw (
  from_le_bytes-to_le_bytes w (to_bits half a) (omega (arith, to_bits-lt half a ht)),
  of_bits-to_bits half a ht,
  (is_int-false a unknown).1 hk,
)

-- Every field is read back.
fields_read-frame : (p : TelemetryV1) → HasTypes p → InRange p → fields_read (frame p) ≡ p
unfolding fields_read with_crc fields_written
fields_read-frame p t r = λ i. record {
  sender_mode = read_mode p.sender_mode r.mode_nibble i;
  sender_system_id = from_le_bytes-to_le_bytes 8 p.sender_system_id t.sender_system_id_u64 i;
  survey_id = from_le_bytes-to_le_bytes 4 p.survey_id t.survey_id_u32 i;
  sequence = read_sequence p.sequence r.sequence_24 i;
  gps_unix_time =
      read_optional 4 unknown_u32 p.gps_unix_time (omega arith) t.gps_unix_time_u32 r.time_known i;
  latitude_e7 =
      read_optional_int 4 i32_half unknown_i32 p.latitude_e7 refl (omega arith) t.latitude_e7_i32
        (coordinate-Known max_latitude_e7 p.latitude_e7 (omega arith) r.latitude_range) i;
  longitude_e7 =
      read_optional_int 4 i32_half unknown_i32 p.longitude_e7 refl (omega arith) t.longitude_e7_i32
        (coordinate-Known max_longitude_e7 p.longitude_e7 (omega arith) r.longitude_range) i;
  altitude_half_m =
      read_optional_int 2 i16_half unknown_i16 p.altitude_half_m refl (omega arith)
        t.altitude_half_m_i16 r.altitude_known i;
  speed_cm_s =
      read_optional 2 unknown_u16 p.speed_cm_s (omega arith) t.speed_cm_s_u16 r.speed_known i;
  course_cdeg =
      read_optional 2 unknown_u16 p.course_cdeg (omega arith) t.course_cdeg_u16
        (number-Known max_course_cdeg unknown_u16 p.course_cdeg (omega arith) r.course_range) i;
  gps_fix_class = read_class p.gps_fix_class p.satellites r.satellites_6 i;
  satellites = read_satellites p.gps_fix_class p.satellites r.satellites_6 i;
  hdop_tenths = read_optional_byte unknown_u8 p.hdop_tenths r.hdop_known i;
  temperature_centi_c =
      read_optional_int 2 i16_half unknown_i16 p.temperature_centi_c refl (omega arith)
        t.temperature_centi_c_i16 r.temperature_known i;
  pressure_10pa =
      read_optional 2 unknown_u16 p.pressure_10pa (omega arith) t.pressure_10pa_u16 r.pressure_known
        i;
  humidity_half_percent =
      read_optional_byte unknown_u8 p.humidity_half_percent
        (number-Known max_humidity_half_percent unknown_u8 p.humidity_half_percent (omega arith)
          r.humidity_range)
        i;
  battery_soc_percent =
      read_optional_byte unknown_u8 p.battery_soc_percent
        (number-Known max_battery_soc_percent unknown_u8 p.battery_soc_percent (omega arith)
          r.battery_range)
        i;
}

same_number : (a b : ℕ) → a ≡ b → (a == b) ≡ true
same_number a b e = ground arith

-- The frame passes the checks that come before the fields.
check_frame-frame : (p : TelemetryV1) → p.sender_mode ≤ 0x0F → check_frame (frame p) ≡ ok tt
unfolding check_frame with_crc fields_written
check_frame-frame p h =
    let body = take 44 (fields_written p) in
    let stored = from_le_bytes-to_le_bytes 4 (crc32_ieee body) (crc32_ieee-lt body) in
    rw (read_type p.sender_mode h, stored, same_number (crc32_ieee body) (crc32_ieee body) refl)

encode-frame : (p : TelemetryV1) → validate p ≡ ok tt → encode p ≡ ok (frame p)
unfolding encode
encode-frame p h = rw h

-- `encode` succeeds on every packet whose fields fit their Rust types and are in range, and `decode`
-- gives the packet back.
pub decode-encode :
    (p : TelemetryV1)
    → HasTypes p
    → InRange p
    → (bytes : List ℕ) × (encode p ≡ ok bytes) × (decode bytes ≡ ok p)
unfolding decode
decode-encode p t r =
    let valid = (validate-InRange_iff p).1 r in
    let read = fields_read-frame p t r in
    (frame p, encode-frame p valid, rw (check_frame-frame p r.mode_nibble, read, valid))
