-- ===== src/Gps/Decimal.antt =====
-- The decimal fields of a sentence, firmware/golfer/src/gps.rs: `parse_decimal_fixed_i32`,
-- `round_div_signed` and the three fields that are read by them.
use golfer.Prelude.{
  ℕ, zero, suc, ◌+◌, ◌/◌, Option, none, some, List, [], ◌∷◌, ◌>>=◌, ◌>>◌, guard, checked_add,
  checked_mul, u32_mod, u64_mod, ltb, leb, ◌==◌, if◌then◌else◌, take, drop, length, not,
}
use golfer.Prelude.Int.{ℤ, pos, negsuc, neg, i16_half, i32_half}
use golfer.Gps.Digits.{parse_digits, dot_index, scaled_fraction}

-- `i32::try_from` of a `u32`.
abbrev pub i32_of_u32 : ℕ → Option ℤ
i32_of_u32 value = if ltb value i32_half then some (pos value) else none

-- `for _ in 0..places { scale = scale.checked_mul(10)?; }`
unfoldable pub scale_loop : ℕ → ℕ → Option ℕ
scale_loop zero scale = some scale
scale_loop (suc rounds) scale = do scale ← checked_mul u32_mod scale 10; scale_loop rounds scale

-- The part after the sign.
unfoldable pub parse_magnitude : ℕ → List ℕ → Option ℕ
unfolding parse_digits dot_index scaled_fraction scale_loop
parse_magnitude places digits = do
  guard (not (length digits == 0))
  whole ← if dot_index digits == 0 then some 0 else parse_digits (take (dot_index digits) digits)
  scale ← scale_loop places 1
  fraction ← scaled_fraction u32_mod places (drop (dot_index digits + 1) digits)
  whole ← checked_mul u32_mod whole scale
  checked_add u32_mod whole fraction

unfoldable pub parse_decimal_fixed_i32 : List ℕ → ℕ → Option ℤ
unfolding parse_magnitude
parse_decimal_fixed_i32 [] places = none
parse_decimal_fixed_i32 (first ∷ rest) places =
    if first == b'-'
    then (do
      magnitude ← parse_magnitude places rest
      signed ← i32_of_u32 magnitude
      some (neg signed))
    else if first == b'+'
    then parse_magnitude places rest >>= i32_of_u32
    else parse_magnitude places (first ∷ rest) >>= i32_of_u32

-- `checked_div` of a signed number rounds towards zero.
unfoldable pub round_div_signed : ℤ → ℕ → Option ℤ
round_div_signed value zero = none
round_div_signed (pos n) (suc d) =
    if ltb (n + suc d / 2) i32_half then some (pos ((n + suc d / 2) / suc d)) else none
round_div_signed (negsuc n) (suc d) =
    if leb (suc n + suc d / 2) i32_half
    then some (neg (pos ((suc n + suc d / 2) / suc d)))
    else none

-- `i16::try_from`.
abbrev pub i16_of_i32 : ℤ → Option ℤ
i16_of_i32 (pos n) = if ltb n i16_half then some (pos n) else none
i16_of_i32 (negsuc n) = if ltb n i16_half then some (negsuc n) else none

unfoldable pub parse_altitude_half_m : List ℕ → Option ℤ
unfolding parse_decimal_fixed_i32 round_div_signed
parse_altitude_half_m value = do
  decimeters ← parse_decimal_fixed_i32 value 1
  half_m ← round_div_signed decimeters 5
  i16_of_i32 half_m

-- `u64::try_from`, after the sign is tested.
abbrev pub not_negative : ℤ → Option ℕ
not_negative (pos n) = some n
not_negative (negsuc n) = none

abbrev pub u16_of : ℕ → Option ℕ
u16_of n = if ltb n 0x1_0000 then some n else none

abbrev pub u8_of : ℤ → Option ℕ
u8_of (pos n) = if ltb n 256 then some n else none
u8_of (negsuc n) = none

unfoldable pub parse_speed_cm_s : List ℕ → Option ℕ
unfolding parse_decimal_fixed_i32
parse_speed_cm_s knots = do
  signed ← parse_decimal_fixed_i32 knots 3
  milli_knots ← not_negative signed
  numerator ← checked_mul u64_mod milli_knots 51444
  numerator ← checked_add u64_mod numerator 500000
  u16_of (numerator / 1000000)

unfoldable pub parse_course_cdeg : List ℕ → Option ℕ
unfolding parse_decimal_fixed_i32
parse_course_cdeg degrees = do
  signed ← parse_decimal_fixed_i32 degrees 2
  cdeg ← not_negative signed
  guard (ltb cdeg 36000)
  u16_of cdeg
