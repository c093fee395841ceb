-- ===== src/Storage/Records/Capacity.antt =====
-- The lines of LOCAL.LOG and RX.LOG (firmware/golfer/src/storage.rs) against the capacity of the
-- `String`s that they are formatted in.
use golfer.Prelude.{
  ℕ, zero, suc, ◌+◌, ◌/◌, ◌%◌, ◌≤◌, ◌≡◌, refl, ◌∙◌, ap, sym, true, Option, none, some, List, [],
  ◌∷◌, ◌++◌, length, length-append, arith, if-cases, ltb, leb, append_nil,
}
use mathlib.Core.List.{append_assoc}
use golfer.Prelude.Int.{ℤ, pos, negsuc}
use golfer.Prelude.Format.{digits_within, decimal_text, signed_text, hex_upper}
use golfer.Packet.{fix_class_bits}
use golfer.Storage.RecordLines.{
  LocalSample, Reception, local_line, rx_line, bool_bit, optional_unsigned, optional_signed,
  written, local_pieces, rx_pieces,
}

-- The pieces of a line, put together.
abbrev pub joined : List (List ℕ) → List ℕ
joined [] = []
joined (piece ∷ pieces) = piece ++ joined pieces

abbrev total : List (List ℕ) → ℕ
total [] = 0
total (piece ∷ pieces) = length piece + total pieces

written-joined :
    (capacity : ℕ) (pieces : List (List ℕ)) (line : List ℕ)
    → length line + total pieces ≤ capacity
    → written capacity pieces line ≡ some (line ++ joined pieces)
written-joined capacity [] line h = ap some (sym (append_nil line))
written-joined capacity (piece ∷ pieces) line h =
    let fits : leb (length line + length piece) capacity ≡ true = ground arith in
    rw fits (
      written-joined capacity pieces (line ++ piece) (omega (arith, length-append line piece))
      ∙ ap some (append_assoc line piece (joined pieces)))

length-digits_any : (fuel n : ℕ) → length (digits_within fuel n) ≤ suc fuel
unfolding digits_within
length-digits_any zero n = omega arith
length-digits_any (suc fuel) n =
    if-cases (λ (t : List ℕ). length t ≤ suc (suc fuel)) (ltb n 10) (λ e. omega arith)
      (λ e. omega (
        arith,
        length-append (digits_within fuel (n / 10)) ((48 + n % 10) ∷ []),
        length-digits_any fuel (n / 10),
      ))

length-decimal : (n : ℕ) → length (decimal_text n) ≤ 20
length-decimal n = length-digits_any 19 n

length-signed : (z : ℤ) → length (signed_text z) ≤ 21
length-signed (pos n) = omega (arith, length-decimal n)
length-signed (negsuc n) = omega (arith, length-decimal (suc n))

length-unsigned : (o : Option ℕ) → length (optional_unsigned o) ≤ 20
length-unsigned (some n) = length-decimal n
length-unsigned none = omega arith

length-optional : (o : Option ℤ) → length (optional_signed o) ≤ 21
length-optional (some z) = length-signed z
length-optional none = omega arith

length-hex_upper : (width n : ℕ) → length (hex_upper width n) ≡ width
length-hex_upper zero n = refl
length-hex_upper (suc width) n = ap suc (length-hex_upper width n)

total-local : (utc : Option ℕ) (s : LocalSample) → total (local_pieces utc s) ≤ 640
total-local utc s = omega (
  arith,
  length-decimal s.mono_ms,
  length-unsigned utc,
  length-optional s.gps.latitude_e7,
  length-optional s.gps.longitude_e7,
  length-optional s.gps.altitude_half_m,
  length-unsigned s.gps.speed_cm_s,
  length-unsigned s.gps.course_cdeg,
  length-unsigned s.gps.satellites,
  length-unsigned s.gps.hdop_tenths,
  length-optional s.last_rssi,
  length-optional s.last_snr,
  length-decimal s.received,
  length-decimal s.missed,
  length-decimal s.app_crc_failures,
  length-decimal (bool_bit s.gps.online),
  length-decimal (bool_bit s.gps.fix),
  length-decimal (bool_bit s.link_up),
)

total-rx : (utc : Option ℕ) (rx : Reception) → total (rx_pieces utc rx) ≤ 960
total-rx utc rx = omega (
  arith,
  length-decimal rx.mono_ms,
  length-unsigned utc,
  length-decimal rx.telemetry.sequence,
  length-hex_upper 16 rx.telemetry.sender_system_id,
  length-hex_upper 8 rx.telemetry.survey_id,
  length-decimal rx.telemetry.sender_mode,
  length-signed rx.rssi,
  length-signed rx.snr,
  length-decimal rx.received,
  length-decimal rx.missed,
  length-decimal rx.app_crc_failures,
  length-decimal (bool_bit rx.local_gps.fix),
  length-optional rx.local_gps.latitude_e7,
  length-optional rx.local_gps.longitude_e7,
  length-unsigned rx.telemetry.gps_unix_time,
  length-optional rx.telemetry.latitude_e7,
  length-optional rx.telemetry.longitude_e7,
  length-optional rx.telemetry.altitude_half_m,
  length-unsigned rx.telemetry.speed_cm_s,
  length-unsigned rx.telemetry.course_cdeg,
  length-decimal (fix_class_bits rx.telemetry.gps_fix_class),
  length-decimal rx.telemetry.satellites,
  length-unsigned rx.telemetry.hdop_tenths,
  length-optional rx.telemetry.temperature_centi_c,
  length-unsigned rx.telemetry.pressure_10pa,
  length-unsigned rx.telemetry.humidity_half_percent,
  length-unsigned rx.telemetry.battery_soc_percent,
)

pub local_line-joined :
    (utc : Option ℕ) (s : LocalSample) → local_line utc s ≡ some (joined (local_pieces utc s))
unfolding local_line
local_line-joined utc s =
    written-joined 640 (local_pieces utc s) [] (omega (arith, total-local utc s))

rx_line-joined :
    (utc : Option ℕ) (rx : Reception) → rx_line utc rx ≡ some (joined (rx_pieces utc rx))
unfolding rx_line
rx_line-joined utc rx = written-joined 960 (rx_pieces utc rx) [] (omega (arith, total-rx utc rx))
