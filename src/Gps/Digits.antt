-- ===== src/Gps/Digits.antt =====
-- The digit loops of firmware/golfer/src/gps.rs: `parse_digits`, `parse_u8` and the three loops
-- that read a decimal fraction to a fixed number of places.
pub mod Laws
pub mod Fraction
pub mod Printed
use golfer.Prelude.{
  ℕ, zero, suc, ◌+◌, ◌-◌, Bool, ◌&&◌, Option, none, some, List, [], ◌∷◌, ltb, leb, ◌==◌,
  if◌then◌else◌, ◌>>=◌, ◌>>◌, guard, checked_add, checked_mul, u32_mod,
}

abbrev pub is_ascii_digit : ℕ → Bool
is_ascii_digit byte = leb b'0' byte && leb byte b'9'

-- The loop of `parse_digits`, for an unsigned type with the given limit.
unfoldable pub digits_loop : ℕ → List ℕ → ℕ → Option ℕ
digits_loop modulus [] value = some value
digits_loop modulus (byte ∷ rest) value = do
  guard (is_ascii_digit byte)
  value ← checked_mul modulus value 10
  value ← checked_add modulus value (byte - b'0')
  digits_loop modulus rest value

unfoldable pub parse_digits : List ℕ → Option ℕ
unfolding digits_loop
parse_digits [] = none
parse_digits (byte ∷ rest) = digits_loop u32_mod (byte ∷ rest) 0

-- `str::parse::<u8>`: one leading plus sign is allowed, and some digit has to follow.
unfoldable pub parse_u8 : List ℕ → Option ℕ
unfolding digits_loop
parse_u8 [] = none
parse_u8 (byte ∷ []) = digits_loop 256 (byte ∷ []) 0
parse_u8 (byte ∷ next ∷ rest) =
    if byte == b'+' then digits_loop 256 (next ∷ rest) 0 else digits_loop 256 (byte ∷ next ∷ rest) 0

-- The bytes before the first dot are `take (dot_index bytes) bytes`.
unfoldable pub dot_index : List ℕ → ℕ
dot_index [] = 0
dot_index (byte ∷ rest) = if byte == b'.' then 0 else suc (dot_index rest)

-- `for &byte in fraction`: all bytes are checked, the first `places` are used.
unfoldable pub fraction_loop : ℕ → ℕ → List ℕ → ℕ → ℕ → Option (ℕ × ℕ)
fraction_loop modulus places [] value used = some (value, used)
fraction_loop modulus places (byte ∷ rest) value used = do
  guard (is_ascii_digit byte)
  (value, used) ←
      if ltb used places
      then (do
        value ← checked_mul modulus value 10
        value ← checked_add modulus value (byte - b'0')
        some (value, used + 1))
      else some (value, used)
  fraction_loop modulus places rest value used

-- `while used < places`, by the rounds that are left.
unfoldable pub pad_loop : ℕ → ℕ → ℕ → Option ℕ
pad_loop modulus zero value = some value
pad_loop modulus (suc rounds) value = do
  value ← checked_mul modulus value 10
  pad_loop modulus rounds value

-- The two loops, as they stand in `parse_decimal_fixed_i32`, `parse_nmea_time_millis` and
-- `scale_fraction_to_e7`.
unfoldable pub scaled_fraction : ℕ → ℕ → List ℕ → Option ℕ
scaled_fraction modulus places bytes = do
  (value, used) ← fraction_loop modulus places bytes 0 0
  pad_loop modulus (places - used) value
