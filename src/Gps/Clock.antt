-- ===== src/Gps/Clock.antt =====
-- UTC of an RMC sentence, firmware/golfer/src/gps.rs: `parse_rmc_unix_ms` and
-- `parse_nmea_time_millis`.
pub mod Range
use golfer.Prelude.{
  ℕ, ◌+◌, ◌-◌, ◌*◌, ◌/◌, ◌≤◌, ◌<◌, ◌≡◌, Bool, Option, none, some, List, ◌>>=◌, ◌>>◌, ◌&&◌, guard,
  checked_add, checked_mul, u16_mod, u64_mod, ltb, leb, ◌==◌, if◌then◌else◌, take, drop, length,
}
use golfer.Gps.Digits.{parse_digits, dot_index, scaled_fraction}
use golfer.Gps.Calendar.{days_since_unix_epoch}

unfoldable pub parse_nmea_time_millis : List ℕ → Option ℕ
unfolding dot_index scaled_fraction
parse_nmea_time_millis time =
    if dot_index time == length time
    then some 0
    else scaled_fraction u16_mod 3 (drop (dot_index time + 1) time)

abbrev pub year_of : ℕ → ℕ
year_of year_2 = if leb 80 year_2 then 1900 + year_2 else 2000 + year_2

-- `bytes[start..start + 2]`, which the length tests keep in range.
abbrev pub two_digits : List ℕ → ℕ → Option ℕ
two_digits bytes start = parse_digits (take 2 (drop start bytes))

unfoldable pub parse_rmc_unix_ms : List ℕ → List ℕ → Option ℕ
unfolding parse_digits days_since_unix_epoch parse_nmea_time_millis
parse_rmc_unix_ms date time = do
  guard (length date == 6 && leb 6 (length time))
  day ← two_digits date 0
  month ← two_digits date 2
  year_2 ← two_digits date 4
  guard (leb 2024 (year_of year_2) && leb (year_of year_2) 2079)
  hour ← two_digits time 0
  minute ← two_digits time 2
  second ← two_digits time 4
  guard (ltb hour 24 && ltb minute 60 && ltb second 60)
  days ← days_since_unix_epoch (year_of year_2) month day
  seconds ← checked_mul u64_mod days 86400
  seconds ← checked_add u64_mod seconds (hour * 3600)
  seconds ← checked_add u64_mod seconds (minute * 60)
  seconds ← checked_add u64_mod seconds second
  millis ← parse_nmea_time_millis time
  ms ← checked_mul u64_mod seconds 1000
  checked_add u64_mod ms millis
