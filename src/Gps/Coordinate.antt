-- ===== src/Gps/Coordinate.antt =====
-- The coordinates of a sentence, firmware/golfer/src/gps.rs: `parse_coordinate_e7` and
-- `scale_fraction_to_e7`.
pub mod Bounds
use golfer.Prelude.{
  ℕ, ◌+◌, ◌-◌, ◌*◌, ◌/◌, ◌≤◌, ◌<◌, ◌≡◌, Bool, Option, none, some, List, [], ◌∷◌, ◌>>=◌, ◌>>◌, ◌&&◌,
  ◌||◌, guard, checked_add, checked_mul, u32_mod, ltb, leb, ◌==◌, if◌then◌else◌, take, drop, length,
  not,
}
use golfer.Prelude.Int.{ℤ, pos, neg}
use golfer.Gps.Digits.{parse_digits, dot_index, scaled_fraction}
use golfer.Gps.Decimal.{i32_of_u32}

unfoldable pub scale_fraction_to_e7 : List ℕ → Option ℕ
unfolding scaled_fraction
scale_fraction_to_e7 bytes = scaled_fraction u32_mod 7 bytes

-- The two matches on the hemisphere.
unfoldable pub max_degrees : List ℕ → Option ℕ
max_degrees [] = none
max_degrees (letter ∷ []) =
    if letter == b'N' || letter == b'S'
    then some 90
    else if letter == b'E' || letter == b'W'
    then some 180
    else none
max_degrees (letter ∷ next ∷ rest) = none

unfoldable pub signed_by : List ℕ → ℤ → Option ℤ
signed_by [] value = none
signed_by (letter ∷ []) value =
    if letter == b'S' || letter == b'W'
    then some (neg value)
    else if letter == b'N' || letter == b'E'
    then some value
    else none
signed_by (letter ∷ next ∷ rest) value = none

unfoldable pub parse_coordinate_e7 : List ℕ → List ℕ → Option ℤ
unfolding parse_digits dot_index scale_fraction_to_e7 max_degrees signed_by
parse_coordinate_e7 coordinate hemisphere = do
  guard (leb 3 (dot_index coordinate))
  degrees ← parse_digits (take (dot_index coordinate - 2) coordinate)
  whole_minutes ←
      parse_digits (drop (dot_index coordinate - 2) (take (dot_index coordinate) coordinate))
  guard (ltb whole_minutes 60)
  fractional_minutes ←
      if ltb (dot_index coordinate) (length coordinate)
      then scale_fraction_to_e7 (drop (dot_index coordinate + 1) coordinate)
      else some 0
  minutes_e7 ← checked_mul u32_mod whole_minutes 10000000
  minutes_e7 ← checked_add u32_mod minutes_e7 fractional_minutes
  limit ← max_degrees hemisphere
  guard (not (ltb limit degrees || (degrees == limit && not (minutes_e7 == 0))))
  decimal_degrees_e7 ← checked_mul u32_mod degrees 10000000
  decimal_degrees_e7 ← checked_add u32_mod decimal_degrees_e7 (minutes_e7 / 60)
  signed ← i32_of_u32 decimal_degrees_e7
  signed_by hemisphere signed
