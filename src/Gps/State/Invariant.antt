-- ===== src/Gps/State/Invariant.antt =====
-- The invariant of the receiver (firmware/golfer/src/gps.rs).
use golfer.Gps.Digits.{parse_u8}
use golfer.Gps.Decimal.{parse_decimal_fixed_i32, u8_of}
use golfer.Prelude.Int.{Fits, Within, i16_half, ℤ}
use golfer.Gps.Clock.{parse_rmc_unix_ms}
use golfer.Gps.State.Fields.{
  coordinate-Within, parse_altitude_half_m-Fits, parse_course_cdeg-lt, parse_speed_cm_s-lt,
  parse_u8-lt, u8_of-lt,
}
use golfer.Gps.State.{
  GpsState, Receiver, apply, apply_gga, apply_rmc, end_of_line, field, gga, gga_values, lost_fix,
  nmea_line_capacity, on_byte, on_bytes, or_zero, powered_on, push_byte, rmc, rmc_values,
  same_bytes, with_position, with_utc,
}
use golfer.Gps.Clock.Range.{parse_rmc_unix_ms-range}
use golfer.Prelude.{
  ℕ, All, Bool, Bool-cases, Each, Each-bind, Each-intro, List, Option, [], arith, false, if-both,
  inl, inr, length, length-append, ltb, ltb→lt, none, some, true, ◌<◌, ◌==◌, ◌∷◌, ◌≤◌,
}

-- A fix comes with both coordinates, and they are not there without one. The code bounds a coordinate
-- by its hemisphere alone, so a latitude with E or W may have up to 180 degrees.
abbrev Position : Bool → Option ℤ → Option ℤ → Type 0
Position true (some latitude) (some longitude) =
    Within 1800000000 latitude × Within 1800000000 longitude
Position true (some latitude) none = ⊥
Position true none longitude = ⊥
Position false none none = Unit
Position false none (some longitude) = ⊥
Position false (some latitude) longitude = ⊥

pub record WellFormed (s : GpsState) : Type 0 where
  pub position : Position s.fix s.latitude_e7 s.longitude_e7
  pub satellites_lt : Each (λ n. n < 256) s.satellites
  pub hdop_lt : Each (λ n. n < 256) s.hdop_tenths
  pub altitude_fits : Each (Fits i16_half) s.altitude_half_m
  pub speed_lt : Each (λ n. n < 0x1_0000) s.speed_cm_s
  pub course_lt : Each (λ n. n < 36000) s.course_cdeg
  pub utc_plausible : Each (λ ms. (1704067200000 ≤ ms) × (ms < 3471292800000)) s.utc_unix_ms

with_position-WellFormed :
    (latitude longitude : Option ℤ) (s : GpsState)
    → Each (Within 1800000000) latitude
    → Each (Within 1800000000) longitude
    → WellFormed s
    → WellFormed (with_position latitude longitude s)
with_position-WellFormed none longitude s a b v = v
with_position-WellFormed (some latitude) none s a b v = v
with_position-WellFormed (some latitude) (some longitude) s a b v = record {
  position = (a, b);
  satellites_lt = v.satellites_lt;
  hdop_lt = v.hdop_lt;
  altitude_fits = v.altitude_fits;
  speed_lt = v.speed_lt;
  course_lt = v.course_lt;
  utc_plausible = v.utc_plausible;
}

lost_fix-WellFormed : (s : GpsState) → WellFormed s → WellFormed (lost_fix s)
lost_fix-WellFormed s v = record {
  position = tt;
  satellites_lt = v.satellites_lt;
  hdop_lt = v.hdop_lt;
  altitude_fits = v.altitude_fits;
  speed_lt = v.speed_lt;
  course_lt = v.course_lt;
  utc_plausible = v.utc_plausible;
}

gga_values-WellFormed :
    (line : List ℕ) (s : GpsState) → WellFormed s → WellFormed (gga_values line s)
gga_values-WellFormed line s v = record {
  position = v.position;
  satellites_lt = parse_u8-lt (field line 7);
  hdop_lt = Each-bind (λ n. n < 256) (parse_decimal_fixed_i32 (field line 8) 1) u8_of u8_of-lt;
  altitude_fits = parse_altitude_half_m-Fits (field line 9);
  speed_lt = v.speed_lt;
  course_lt = v.course_lt;
  utc_plausible = v.utc_plausible;
}

with_utc-WellFormed :
    (utc : Option ℕ) (s : GpsState)
    → Each (λ ms. (1704067200000 ≤ ms) × (ms < 3471292800000)) utc
    → WellFormed s
    → WellFormed (with_utc utc (record s { online = true }))
with_utc-WellFormed none s h v = record {
  position = v.position;
  satellites_lt = v.satellites_lt;
  hdop_lt = v.hdop_lt;
  altitude_fits = v.altitude_fits;
  speed_lt = v.speed_lt;
  course_lt = v.course_lt;
  utc_plausible = v.utc_plausible;
}
with_utc-WellFormed (some ms) s h v = record {
  position = v.position;
  satellites_lt = v.satellites_lt;
  hdop_lt = v.hdop_lt;
  altitude_fits = v.altitude_fits;
  speed_lt = v.speed_lt;
  course_lt = v.course_lt;
  utc_plausible = h;
}

rmc_values-WellFormed :
    (line : List ℕ) (s : GpsState) → WellFormed s → WellFormed (rmc_values line s)
rmc_values-WellFormed line s v =
    with_utc-WellFormed (parse_rmc_unix_ms (field line 9) (field line 1)) s
      (Each-intro _ _ (parse_rmc_unix_ms-range (field line 9) (field line 1))) v

motion-WellFormed :
    (s : GpsState) (speed course : Option ℕ)
    → Each (λ n. n < 0x1_0000) speed
    → Each (λ n. n < 36000) course
    → WellFormed s
    → WellFormed (record s { speed_cm_s = speed; course_cdeg = course })
motion-WellFormed s speed course a b v = record {
  position = v.position;
  satellites_lt = v.satellites_lt;
  hdop_lt = v.hdop_lt;
  altitude_fits = v.altitude_fits;
  speed_lt = a;
  course_lt = b;
  utc_plausible = v.utc_plausible;
}

abbrev Good : Bool × GpsState → Type 0
Good r = WellFormed r.1

apply_gga-Good : (line : List ℕ) (s : GpsState) → WellFormed s → Good (apply_gga line s)
unfolding apply_gga
apply_gga-Good line s v =
    let read = gga_values-WellFormed line s v in
    if-both Good (gga (field line 0))
      (if-both Good (or_zero (parse_u8 (field line 6)) == 0)
        (lost_fix-WellFormed (gga_values line s) read)
        (with_position-WellFormed _ _ (gga_values line s)
          (coordinate-Within (field line 2) (field line 3))
          (coordinate-Within (field line 4) (field line 5)) read))
      v

apply_rmc-Good : (line : List ℕ) (s : GpsState) → WellFormed s → Good (apply_rmc line s)
unfolding apply_rmc
apply_rmc-Good line s v =
    let read = rmc_values-WellFormed line s v in
    if-both Good (rmc (field line 0))
      (if-both Good (same_bytes (field line 2) (b'A' ∷ []))
        (motion-WellFormed _ _ _ (parse_speed_cm_s-lt (field line 7))
          (parse_course_cdeg-lt (field line 8))
          (with_position-WellFormed _ _ (rmc_values line s)
            (coordinate-Within (field line 3) (field line 4))
            (coordinate-Within (field line 5) (field line 6)) read))
        (motion-WellFormed (lost_fix (rmc_values line s)) none none tt tt
          (lost_fix-WellFormed (rmc_values line s) read)))
      v

apply-Good : (line : List ℕ) (s : GpsState) → WellFormed s → Good (apply line s)
unfolding apply
apply-Good line s v =
    if-both Good (apply_gga line s).0 (apply_gga-Good line s v)
      (apply_rmc-Good line (apply_gga line s).1 (apply_gga-Good line s v))

-- The line buffer keeps within its capacity, and every state is well formed.
pub record ReceiverInv (r : Receiver) : Type 0 where
  pub line_le : length r.line ≤ nmea_line_capacity
  pub state_ok : WellFormed r.state
  pub signals_ok : All WellFormed r.signals

end_of_line-Inv : (line : List ℕ) (r : Receiver) → ReceiverInv r → ReceiverInv (end_of_line line r)
end_of_line-Inv [] r v = v
end_of_line-Inv (first ∷ rest) r v =
    let good = apply-Good (first ∷ rest) r.state v.state_ok in
    record {
      line_le = omega arith;
      state_ok = good;
      signals_ok =
          if-both (All WellFormed) (apply (first ∷ rest) r.state).0 (good, v.signals_ok)
            v.signals_ok;
    }

push_byte-le : (byte : ℕ) (line : List ℕ) → length (push_byte byte line) ≤ nmea_line_capacity
push_byte-le byte line = elim (Bool-cases (ltb (length line) nmea_line_capacity)) [
  | inl room ↦
      rw room (
        omega (arith, length-append line (byte ∷ []), ltb→lt (length line) nmea_line_capacity room))
  | inr full ↦ rw full (omega arith)
]

on_byte-Inv : (byte : ℕ) (r : Receiver) → ReceiverInv r → ReceiverInv (on_byte byte r)
unfolding on_byte
on_byte-Inv byte r v = if-both ReceiverInv (byte == 0x0a) (end_of_line-Inv r.line r v) (
    if-both ReceiverInv (byte == 0x0d) v (
      if-both ReceiverInv (ltb byte 128)
        (record {
          line_le = push_byte-le byte r.line;
          state_ok = v.state_ok;
          signals_ok = v.signals_ok;
        })
        v))

-- Whatever bytes arrive, the line buffer keeps within its capacity, and the state and every state
-- that was signalled are well formed: a fix comes with both coordinates, each of them within 180
-- degrees (the latitude too, since a sentence may give it with E or W), the satellites and the HDOP
-- fit a byte, altitude and speed 16 bits, the course is below 360 degrees, and UTC lies in the
-- years 2024 to 2079.
pub on_bytes-Inv : (bytes : List ℕ) (r : Receiver) → ReceiverInv r → ReceiverInv (on_bytes bytes r)
unfolding on_bytes
on_bytes-Inv [] r v = v
on_bytes-Inv (byte ∷ rest) r v = on_bytes-Inv rest (on_byte byte r) (on_byte-Inv byte r v)

pub powered_on-Inv : ReceiverInv powered_on
powered_on-Inv = record {
  line_le = omega arith;
  state_ok = record {
    position = tt;
    satellites_lt = tt;
    hdop_lt = tt;
    altitude_fits = tt;
    speed_lt = tt;
    course_lt = tt;
    utc_plausible = tt;
  };
  signals_ok = tt;
}
