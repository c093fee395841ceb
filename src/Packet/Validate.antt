-- ===== src/Packet/Validate.antt =====
-- What `validate` of firmware/golfer/src/packet.rs accepts.
use golfer.Prelude.{
  ℕ, ◌≤◌, ◌<◌, ◌≡◌, refl, Bool, false, true, not, ltb, ◌==◌, Option, none, some, arith, List, [],
  ◌∷◌, All, ◌≢◌, ◌↔◌, suc,
}
use golfer.Prelude.Int.{ℤ, pos, negsuc, within, Within}
use golfer.Prelude.Results.{Result, ok, reject, ◌>>◌}
use golfer.Packet.{
  TelemetryV1, EncodeError, InRange, Known, some_with, is_int, validate, max_sequence,
  max_latitude_e7, sender_mode_out_of_range, sequence_out_of_range, unknown_u32,
  gps_time_uses_reserved_sentinel, latitude_out_of_range, max_longitude_e7, longitude_out_of_range,
  unknown_i16, altitude_uses_reserved_sentinel, unknown_u16, speed_uses_reserved_sentinel,
  max_course_cdeg, course_out_of_range, max_satellites, too_many_satellites, unknown_u8,
  hdop_uses_reserved_sentinel, temperature_uses_reserved_sentinel, pressure_uses_reserved_sentinel,
  max_humidity_half_percent, humidity_out_of_range, max_battery_soc_percent,
  battery_soc_out_of_range,
}

-- The checks as a list: the test that refuses, and the error.
abbrev checks : TelemetryV1 → List (Bool × EncodeError)
checks p =
    (ltb 0x0F p.sender_mode, sender_mode_out_of_range)
    ∷ (ltb max_sequence p.sequence, sequence_out_of_range)
    ∷ (some_with (λ t. t == unknown_u32) p.gps_unix_time, gps_time_uses_reserved_sentinel)
    ∷ (some_with (λ l. not (within max_latitude_e7 l)) p.latitude_e7, latitude_out_of_range)
    ∷ (some_with (λ l. not (within max_longitude_e7 l)) p.longitude_e7, longitude_out_of_range)
    ∷ (some_with (λ a. is_int a unknown_i16) p.altitude_half_m, altitude_uses_reserved_sentinel)
    ∷ (some_with (λ s. s == unknown_u16) p.speed_cm_s, speed_uses_reserved_sentinel)
    ∷ (some_with (λ c. ltb max_course_cdeg c) p.course_cdeg, course_out_of_range)
    ∷ (ltb max_satellites p.satellites, too_many_satellites)
    ∷ (some_with (λ h. h == unknown_u8) p.hdop_tenths, hdop_uses_reserved_sentinel)
    ∷ (
      some_with (λ t. is_int t unknown_i16) p.temperature_centi_c,
      temperature_uses_reserved_sentinel,
    )
    ∷ (some_with (λ x. x == unknown_u16) p.pressure_10pa, pressure_uses_reserved_sentinel)
    ∷ (
      some_with (λ h. ltb max_humidity_half_percent h) p.humidity_half_percent,
      humidity_out_of_range,
    )
    ∷ (
      some_with (λ b. ltb max_battery_soc_percent b) p.battery_soc_percent,
      battery_soc_out_of_range,
    )
    ∷ []

-- The first check that refuses decides.
abbrev first_error : List (Bool × EncodeError) → Result EncodeError (Unit {0})
first_error [] = ok tt
first_error ((test, e) ∷ rest) = reject test e >> first_error rest

validate-first_error : (p : TelemetryV1) → validate p ≡ first_error (checks p)
unfolding validate
validate-first_error p = refl

abbrev Passed : Bool × EncodeError → Type 0
Passed c = c.0 ≡ false

first_error-ok : (cs : List (Bool × EncodeError)) → first_error cs ≡ ok tt → All Passed cs
first_error-ok [] h = tt
first_error-ok ((true, e) ∷ cs) h = cc
first_error-ok ((false, e) ∷ cs) h = (refl, first_error-ok cs h)

ok-first_error : (cs : List (Bool × EncodeError)) → All Passed cs → first_error cs ≡ ok tt
ok-first_error [] h = refl
ok-first_error ((true, e) ∷ cs) h = cc (h.0)
ok-first_error ((false, e) ∷ cs) h = ok-first_error cs h.1

-- An optional value that a test does not refuse.
Known-iff {ℓ κ} :
    {A : Type ℓ} (P : A → Type κ) (test : A → Bool)
    → ((a : A) → (test a ≡ false) ↔ P a)
    → (o : Option A) → (some_with test o ≡ false) ↔ Known P o
Known-iff P test law none = (λ h. tt, λ h. refl)
Known-iff P test law (some a) = law a

not_unknown : (unknown a : ℕ) → ((a == unknown) ≡ false) ↔ (a ≢ unknown)
not_unknown unknown a = ground arith

pub is_int-false : (a b : ℤ) → (is_int a b ≡ false) ↔ (a ≢ b)
is_int-false (pos m) (pos n) = (λ h. ground arith, λ h. ground arith)
is_int-false (negsuc m) (negsuc n) = (λ h. ground arith, λ h. ground arith)
is_int-false (pos m) (negsuc n) = (λ h e. cc, λ h. refl)
is_int-false (negsuc m) (pos n) = (λ h e. cc, λ h. refl)

is_within : (limit : ℕ) (a : ℤ) → (not (within limit a) ≡ false) ↔ Within limit a
is_within limit (pos n) = ground arith
is_within limit (negsuc n) = ground arith

below : (limit a : ℕ) → (ltb limit a ≡ false) ↔ (a < suc limit)
below limit a = ground arith

at_most : (limit a : ℕ) → (ltb limit a ≡ false) ↔ (a ≤ limit)
at_most limit a = ground arith

unknown_iff :
    (unknown : ℕ) (o : Option ℕ)
    → (some_with (λ a. a == unknown) o ≡ false) ↔ Known (λ a. a ≢ unknown) o
unknown_iff unknown = Known-iff (λ a. a ≢ unknown) (λ a. a == unknown) (not_unknown unknown)

unknown_int_iff :
    (unknown : ℤ) (o : Option ℤ)
    → (some_with (λ a. is_int a unknown) o ≡ false) ↔ Known (λ a. a ≢ unknown) o
unknown_int_iff unknown =
    Known-iff (λ a. a ≢ unknown) (λ a. is_int a unknown) (λ a. is_int-false a unknown)

within_iff :
    (limit : ℕ) (o : Option ℤ)
    → (some_with (λ a. not (within limit a)) o ≡ false) ↔ Known (Within limit) o
within_iff limit = Known-iff (Within limit) (λ a. not (within limit a)) (is_within limit)

at_most_iff :
    (limit : ℕ) (o : Option ℕ) → (some_with (λ a. ltb limit a) o ≡ false) ↔ Known (λ a. a ≤ limit) o
at_most_iff limit = Known-iff (λ a. a ≤ limit) (λ a. ltb limit a) (at_most limit)

Passed-InRange : (p : TelemetryV1) → All Passed (checks p) → InRange p
Passed-InRange p h = record {
  mode_nibble = (at_most 0x0F p.sender_mode).0 h.0;
  sequence_24 = (at_most max_sequence p.sequence).0 h.1.0;
  time_known = (unknown_iff unknown_u32 p.gps_unix_time).0 h.1.1.0;
  latitude_range = (within_iff max_latitude_e7 p.latitude_e7).0 h.1.1.1.0;
  longitude_range = (within_iff max_longitude_e7 p.longitude_e7).0 h.1.1.1.1.0;
  altitude_known = (unknown_int_iff unknown_i16 p.altitude_half_m).0 h.1.1.1.1.1.0;
  speed_known = (unknown_iff unknown_u16 p.speed_cm_s).0 h.1.1.1.1.1.1.0;
  course_range = (at_most_iff max_course_cdeg p.course_cdeg).0 h.1.1.1.1.1.1.1.0;
  satellites_6 = (at_most max_satellites p.satellites).0 h.1.1.1.1.1.1.1.1.0;
  hdop_known = (unknown_iff unknown_u8 p.hdop_tenths).0 h.1.1.1.1.1.1.1.1.1.0;
  temperature_known = (unknown_int_iff unknown_i16 p.temperature_centi_c).0 h.1.1.1.1.1.1.1.1.1.1.0;
  pressure_known = (unknown_iff unknown_u16 p.pressure_10pa).0 h.1.1.1.1.1.1.1.1.1.1.1.0;
  humidity_range =
      (at_most_iff max_humidity_half_percent p.humidity_half_percent).0 h.1.1.1.1.1.1.1.1.1.1.1.1.0;
  battery_range =
      (at_most_iff max_battery_soc_percent p.battery_soc_percent).0 h.1.1.1.1.1.1.1.1.1.1.1.1.1.0;
}

InRange-Passed : (p : TelemetryV1) → InRange p → All Passed (checks p)
InRange-Passed p r = (
  (at_most 0x0F p.sender_mode).1 r.mode_nibble,
  (
    (at_most max_sequence p.sequence).1 r.sequence_24,
    (
      (unknown_iff unknown_u32 p.gps_unix_time).1 r.time_known,
      (
        (within_iff max_latitude_e7 p.latitude_e7).1 r.latitude_range,
        (
          (within_iff max_longitude_e7 p.longitude_e7).1 r.longitude_range,
          (
            (unknown_int_iff unknown_i16 p.altitude_half_m).1 r.altitude_known,
            (
              (unknown_iff unknown_u16 p.speed_cm_s).1 r.speed_known,
              (
                (at_most_iff max_course_cdeg p.course_cdeg).1 r.course_range,
                (
                  (at_most max_satellites p.satellites).1 r.satellites_6,
                  (
                    (unknown_iff unknown_u8 p.hdop_tenths).1 r.hdop_known,
                    (
                      (unknown_int_iff unknown_i16 p.temperature_centi_c).1 r.temperature_known,
                      (
                        (unknown_iff unknown_u16 p.pressure_10pa).1 r.pressure_known,
                        (
                          (at_most_iff max_humidity_half_percent p.humidity_half_percent).1
                              r.humidity_range,
                          (
                            (at_most_iff max_battery_soc_percent p.battery_soc_percent).1
                                r.battery_range,
                            tt,
                          ),
                        ),
                      ),
                    ),
                  ),
                ),
              ),
            ),
          ),
        ),
      ),
    ),
  ),
)

-- `validate` accepts exactly the packets whose fields are in range and use no reserved value.
pub validate-InRange_iff : (p : TelemetryV1) → (validate p ≡ ok tt) ↔ InRange p
validate-InRange_iff p = (
  λ h. Passed-InRange p (first_error-ok (checks p) (rw (validate-first_error p) at h)),
  λ r. rw (validate-first_error p) (ok-first_error (checks p) (InRange-Passed p r)),
)
