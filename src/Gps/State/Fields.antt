-- ===== src/Gps/State/Fields.antt =====
-- The ranges of the single fields of a sentence (firmware/golfer/src/gps.rs).
use golfer.Gps.Digits.Laws.{digits_loop-some}
use golfer.Gps.Coordinate.Bounds.{parse_coordinate_e7-Within_limit}
use golfer.Gps.Coordinate.{max_degrees, parse_coordinate_e7}
use golfer.Gps.Digits.{parse_u8}
use golfer.Gps.Decimal.{
  i16_of_i32, not_negative, parse_altitude_half_m, parse_course_cdeg, parse_decimal_fixed_i32,
  parse_speed_cm_s, round_div_signed, u16_of, u8_of,
}
use golfer.Prelude.Int.{Fits, Within, i16_half, negsuc, pos, ℤ}
use golfer.Prelude.{
  ℕ, Each, Each-bind, Each-intro, List, [], arith, checked_add, checked_mul, guard, if-both, ltb,
  some, u64_mod, ◌*◌, ◌/◌, ◌<◌, ◌==◌, ◌>>◌, ◌∷◌, ◌≡◌, ◌≤◌,
}

pub parse_u8-lt : (bytes : List ℕ) → Each (λ n. n < 256) (parse_u8 bytes)
unfolding parse_u8
parse_u8-lt [] = tt
parse_u8-lt (byte ∷ []) =
    Each-intro (λ n. n < 256) _ (λ n h. (digits_loop-some 256 (byte ∷ []) 0 n (omega arith) h).2)
parse_u8-lt (byte ∷ next ∷ rest) =
    if-both (Each (λ n. n < 256)) (byte == b'+')
      (Each-intro (λ n. n < 256) _
        (λ n h. (digits_loop-some 256 (next ∷ rest) 0 n (omega arith) h).2))
      (Each-intro (λ n. n < 256) _
        (λ n h. (digits_loop-some 256 (byte ∷ next ∷ rest) 0 n (omega arith) h).2))

pub u8_of-lt : (z : ℤ) → Each (λ n. n < 256) (u8_of z)
u8_of-lt (pos n) = ground arith
u8_of-lt (negsuc n) = tt

u16_of-lt : (n : ℕ) → Each (λ n. n < 0x1_0000) (u16_of n)
u16_of-lt n = ground arith

i16_of_i32-Fits : (z : ℤ) → Each (Fits i16_half) (i16_of_i32 z)
i16_of_i32-Fits (pos n) = ground arith
i16_of_i32-Fits (negsuc n) = ground arith

pub parse_altitude_half_m-Fits :
    (bytes : List ℕ) → Each (Fits i16_half) (parse_altitude_half_m bytes)
unfolding parse_altitude_half_m
parse_altitude_half_m-Fits bytes =
    Each-bind (Fits i16_half) (parse_decimal_fixed_i32 bytes 1) _
      (λ z. Each-bind (Fits i16_half) (round_div_signed z 5) i16_of_i32 i16_of_i32-Fits)

pub parse_speed_cm_s-lt : (bytes : List ℕ) → Each (λ n. n < 0x1_0000) (parse_speed_cm_s bytes)
unfolding parse_speed_cm_s
parse_speed_cm_s-lt bytes =
    let P : ℕ → Type 0 = λ n. n < 0x1_0000 in
    Each-bind P (parse_decimal_fixed_i32 bytes 3) _ (λ z. Each-bind P (not_negative z) _ (λ m.
      Each-bind P (checked_mul u64_mod m 51444) _
        (λ a. Each-bind P (checked_add u64_mod a 500000) _ (λ b. u16_of-lt (b / 1000000)))))

course-lt : (cdeg : ℕ) → Each (λ n. n < 36000) (guard (ltb cdeg 36000) >> u16_of cdeg)
course-lt cdeg = ground arith

pub parse_course_cdeg-lt : (bytes : List ℕ) → Each (λ n. n < 36000) (parse_course_cdeg bytes)
unfolding parse_course_cdeg
parse_course_cdeg-lt bytes =
    let P : ℕ → Type 0 = λ n. n < 36000 in
    Each-bind P (parse_decimal_fixed_i32 bytes 2) _ (λ z. Each-bind P (not_negative z) _ course-lt)

max_degrees-le :
    (hemisphere : List ℕ) (limit : ℕ) → max_degrees hemisphere ≡ some limit → limit ≤ 180
unfolding max_degrees
max_degrees-le [] limit h = cc
max_degrees-le (letter ∷ []) limit h = ground arith
max_degrees-le (letter ∷ next ∷ rest) limit h = cc

Within-le : (a b : ℕ) (z : ℤ) → a ≤ b → Within a z → Within b z
Within-le a b (pos n) h w = omega arith
Within-le a b (negsuc n) h w = omega arith

pub coordinate-Within :
    (coordinate hemisphere : List ℕ)
    → Each (Within 1800000000) (parse_coordinate_e7 coordinate hemisphere)
coordinate-Within coordinate hemisphere = Each-intro (Within 1800000000) _ (λ z h.
    let (limit, at, w) = parse_coordinate_e7-Within_limit coordinate hemisphere z h in
    let le = max_degrees-le hemisphere limit at in
    Within-le (limit * 10000000) 1800000000 z (omega (arith, le)) w)
