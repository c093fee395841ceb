-- ===== src/Gps/State.antt =====
-- The state of the receiver and its two sentences, firmware/golfer/src/gps.rs: `GpsState`,
-- `apply_gga`, `apply_rmc`, and the loop of `receive_task` byte by byte.
pub mod Fields
pub mod Invariant
pub mod Line
use golfer.Prelude.{
  ℕ, ◌+◌, ◌-◌, ◌≤◌, ◌<◌, ◌≡◌, Bool, true, false, Option, none, some, List, [], ◌∷◌, ◌++◌, ◌>>=◌,
  ◌||◌, ltb, ◌==◌, if◌then◌else◌, get_or, length,
}
use golfer.Prelude.Int.{ℤ}
use golfer.Gps.Digits.{parse_u8}
use golfer.Gps.Decimal.{
  parse_decimal_fixed_i32, parse_altitude_half_m, parse_speed_cm_s, parse_course_cdeg, u8_of,
}
use golfer.Gps.Clock.{parse_rmc_unix_ms}
use golfer.Gps.Coordinate.{parse_coordinate_e7}

pub record GpsState : Type 0 where
  pub online : Bool
  pub fix : Bool
  pub latitude_e7 : Option ℤ
  pub longitude_e7 : Option ℤ
  pub satellites : Option ℕ
  pub altitude_half_m : Option ℤ
  pub speed_cm_s : Option ℕ
  pub course_cdeg : Option ℕ
  pub hdop_tenths : Option ℕ
  pub utc_unix_ms : Option ℕ

abbrev pub offline : GpsState
offline = record {
  online = false;
  fix = false;
  latitude_e7 = none;
  longitude_e7 = none;
  satellites = none;
  altitude_half_m = none;
  speed_cm_s = none;
  course_cdeg = none;
  hdop_tenths = none;
  utc_unix_ms = none;
}

-- `line.split(',')`; `field` is what `fields.next().unwrap_or("")` gives for the n-th time.
unfoldable split_from : List ℕ → List ℕ → List (List ℕ)
split_from [] current = current ∷ []
split_from (byte ∷ rest) current =
    if byte == b',' then current ∷ split_from rest [] else split_from rest (current ++ byte ∷ [])

unfoldable pub field : List ℕ → ℕ → List ℕ
unfolding split_from
field line n = get_or (split_from line []) n []

abbrev pub same_bytes : List ℕ → List ℕ → Bool
same_bytes [] [] = true
same_bytes [] (b ∷ bs) = false
same_bytes (a ∷ xs) [] = false
same_bytes (a ∷ xs) (b ∷ bs) = if a == b then same_bytes xs bs else false

-- "$GPGGA", "$GNGGA", "$GPRMC" and "$GNRMC".
abbrev pub gga : List ℕ → Bool
gga sentence =
    same_bytes sentence (b'$' ∷ b'G' ∷ b'P' ∷ b'G' ∷ b'G' ∷ b'A' ∷ [])
    || same_bytes sentence (b'$' ∷ b'G' ∷ b'N' ∷ b'G' ∷ b'G' ∷ b'A' ∷ [])

abbrev pub rmc : List ℕ → Bool
rmc sentence =
    same_bytes sentence (b'$' ∷ b'G' ∷ b'P' ∷ b'R' ∷ b'M' ∷ b'C' ∷ [])
    || same_bytes sentence (b'$' ∷ b'G' ∷ b'N' ∷ b'R' ∷ b'M' ∷ b'C' ∷ [])

abbrev pub or_zero : Option ℕ → ℕ
or_zero none = 0
or_zero (some n) = n

abbrev pub lost_fix : GpsState → GpsState
lost_fix s = record s { fix = false; latitude_e7 = none; longitude_e7 = none }

-- The assignments where both coordinates were read; else the state stays.
abbrev pub with_position : Option ℤ → Option ℤ → GpsState → GpsState
with_position none longitude s = s
with_position (some latitude) none s = s
with_position (some latitude) (some longitude) s = record s {
  fix = true;
  latitude_e7 = some latitude;
  longitude_e7 = some longitude;
}

-- The four assignments before the fix quality is looked at.
abbrev pub gga_values : List ℕ → GpsState → GpsState
gga_values line s = record s {
  online = true;
  satellites = parse_u8 (field line 7);
  hdop_tenths = parse_decimal_fixed_i32 (field line 8) 1 >>= u8_of;
  altitude_half_m = parse_altitude_half_m (field line 9);
}

unfoldable pub apply_gga : List ℕ → GpsState → Bool × GpsState
unfolding field parse_u8 parse_decimal_fixed_i32 parse_altitude_half_m parse_coordinate_e7
apply_gga line s =
    if gga (field line 0)
    then (if or_zero (parse_u8 (field line 6)) == 0 then (true, lost_fix (gga_values line s)) else (
      true,
      with_position (parse_coordinate_e7 (field line 2) (field line 3))
          (parse_coordinate_e7 (field line 4) (field line 5)) (gga_values line s),
    ))
    else (false, s)

abbrev pub with_utc : Option ℕ → GpsState → GpsState
with_utc none s = s
with_utc (some unix_ms) s = record s { utc_unix_ms = some unix_ms }

-- The assignments before the status is looked at.
abbrev pub rmc_values : List ℕ → GpsState → GpsState
rmc_values line s =
    with_utc (parse_rmc_unix_ms (field line 9) (field line 1)) (record s { online = true })

unfoldable pub apply_rmc : List ℕ → GpsState → Bool × GpsState
unfolding field parse_coordinate_e7 parse_speed_cm_s parse_course_cdeg parse_rmc_unix_ms
apply_rmc line s =
    if rmc (field line 0)
    then (if same_bytes (field line 2) (b'A' ∷ [])
        then (
          true,
          record (with_position (parse_coordinate_e7 (field line 3) (field line 4))
              (parse_coordinate_e7 (field line 5) (field line 6)) (rmc_values line s)) {
                speed_cm_s = parse_speed_cm_s (field line 7);
                course_cdeg = parse_course_cdeg (field line 8);
              },
        )
        else (
          true,
          record (lost_fix (rmc_values line s)) { speed_cm_s = none; course_cdeg = none },
        ))
    else (false, s)

-- `apply_gga(..) || apply_rmc(..)`
unfoldable pub apply : List ℕ → GpsState → Bool × GpsState
unfolding apply_gga apply_rmc
apply line s =
    let (updated, s1) = apply_gga line s in if updated then (true, s1) else apply_rmc line s1

-- What the task keeps between two bytes, and the states that it signalled, the latest first.
pub record Receiver : Type 0 where
  pub line : List ℕ
  pub state : GpsState
  pub signals : List GpsState

abbrev pub nmea_line_capacity : ℕ
nmea_line_capacity = 160

-- `line.push(..)` fails on a full line, and the task clears it.
abbrev pub push_byte : ℕ → List ℕ → List ℕ
push_byte byte line = if ltb (length line) nmea_line_capacity then line ++ byte ∷ [] else []

abbrev pub end_of_line : List ℕ → Receiver → Receiver
end_of_line [] r = r
end_of_line (first ∷ rest) r =
    let (updated, state) = apply (first ∷ rest) r.state in
    record { line = []; state = state; signals = if updated then state ∷ r.signals else r.signals }

unfoldable pub on_byte : ℕ → Receiver → Receiver
unfolding apply
on_byte byte r =
    if byte == 0x0a
    then end_of_line r.line r
    else if byte == 0x0d
    then r
    else if ltb byte 128
    then record r { line = push_byte byte r.line }
    else r

unfoldable pub on_bytes : List ℕ → Receiver → Receiver
unfolding on_byte
on_bytes [] r = r
on_bytes (byte ∷ rest) r = on_bytes rest (on_byte byte r)

abbrev pub powered_on : Receiver
powered_on = record { line = []; state = offline; signals = [] }
