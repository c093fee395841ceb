-- ===== src/Gps/Clock/Range.antt =====
-- The range of the UTC that an RMC sentence gives (firmware/golfer/src/gps.rs).
use golfer.Gps.Digits.{dot_index}
use golfer.Gps.Digits.Fraction.{scaled_fraction-lt}
use golfer.Gps.Clock.{parse_nmea_time_millis, parse_rmc_unix_ms, two_digits, year_of}
use golfer.Gps.Calendar.Epoch.{days_since_unix_epoch-bounds}
use golfer.Gps.Calendar.{days_since_unix_epoch}
use golfer.Prelude.{
  ℕ, >>=-eq-some, Bool-cases, List, arith, checked_add, checked_add-eq-some, checked_mul,
  checked_mul-eq-some, drop, guard, guard-eq-some, inl, inr, leb, length, ltb, some, some-eq, true,
  u16_mod, u64_mod, ◌&&◌, ◌*◌, ◌+◌, ◌<◌, ◌==◌, ◌≡◌, ◌≤◌,
}

date_bounds : (y : ℕ) → leb 2024 y && leb y 2079 ≡ true → (2024 ≤ y) × (y < 2080)
date_bounds y h = ground arith

time_bounds :
    (hour minute second : ℕ)
    → ltb hour 24 && ltb minute 60 && ltb second 60 ≡ true
    → hour * 3600 + minute * 60 + second < 86400
time_bounds hour minute second h = ground arith

millis-lt : (time : List ℕ) (n : ℕ) → parse_nmea_time_millis time ≡ some n → n < 1000
unfolding parse_nmea_time_millis
millis-lt time n h = elim (Bool-cases (dot_index time == length time)) [
  | inl none_left ↦ omega (arith, some-eq (rw none_left at h))
  | inr left ↦
      scaled_fraction-lt u16_mod 3 (drop (dot_index time + 1) time) n (omega arith) (rw left at h)
]

sum_bounds :
    (days s1 s2 s3 s4 s5 hour minute second millis ms : ℕ)
    → (19723 ≤ days) × (days < 40177)
    → hour * 3600 + minute * 60 + second < 86400
    → millis < 1000
    → days * 86400 ≡ s1
    → s1 + hour * 3600 ≡ s2
    → s2 + minute * 60 ≡ s3
    → s3 + second ≡ s4
    → s4 * 1000 ≡ s5
    → s5 + millis ≡ ms
    → (1704067200000 ≤ ms) × (ms < 3471292800000)
sum_bounds days s1 s2 s3 s4 s5 hour minute second millis ms d t m e1 e2 e3 e4 e5 e6 = omega arith

-- A time that is accepted lies in the years 2024 to 2079, in milliseconds since 1970.
pub parse_rmc_unix_ms-range :
    (date time : List ℕ) (ms : ℕ)
    → parse_rmc_unix_ms date time ≡ some ms
    → (1704067200000 ≤ ms) × (ms < 3471292800000)
unfolding parse_rmc_unix_ms
parse_rmc_unix_ms-range date time ms h0 =
    let (_, _, h1) = >>=-eq-some (guard (length date == 6 && leb 6 (length time))) _ h0 in
    let (day, _, h2) = >>=-eq-some (two_digits date 0) _ h1 in
    let (month, _, h3) = >>=-eq-some (two_digits date 2) _ h2 in
    let (year_2, _, h4) = >>=-eq-some (two_digits date 4) _ h3 in
    let (_, year, h5) =
      >>=-eq-some (guard (leb 2024 (year_of year_2) && leb (year_of year_2) 2079)) _ h4 in
    let (hour, _, h6) = >>=-eq-some (two_digits time 0) _ h5 in
    let (minute, _, h7) = >>=-eq-some (two_digits time 2) _ h6 in
    let (second, _, h8) = >>=-eq-some (two_digits time 4) _ h7 in
    let (_, clock, h9) = >>=-eq-some (guard (ltb hour 24 && ltb minute 60 && ltb second 60)) _ h8 in
    let (days, at, h10) = >>=-eq-some (days_since_unix_epoch (year_of year_2) month day) _ h9 in
    let (s1, e1, h11) = >>=-eq-some (checked_mul u64_mod days 86400) _ h10 in
    let (s2, e2, h12) = >>=-eq-some (checked_add u64_mod s1 (hour * 3600)) _ h11 in
    let (s3, e3, h13) = >>=-eq-some (checked_add u64_mod s2 (minute * 60)) _ h12 in
    let (s4, e4, h14) = >>=-eq-some (checked_add u64_mod s3 second) _ h13 in
    let (millis, m, h15) = >>=-eq-some (parse_nmea_time_millis time) _ h14 in
    let (s5, e5, h16) = >>=-eq-some (checked_mul u64_mod s4 1000) _ h15 in
    let (y, y') =
      date_bounds (year_of year_2)
        (guard-eq-some (leb 2024 (year_of year_2) && leb (year_of year_2) 2079) year) in
    sum_bounds days s1 s2 s3 s4 s5 hour minute second millis ms
      (days_since_unix_epoch-bounds (year_of year_2) month day days y y' at)
      (time_bounds hour minute second
        (guard-eq-some (ltb hour 24 && ltb minute 60 && ltb second 60) clock))
      (millis-lt time millis m) (checked_mul-eq-some u64_mod days 86400 e1).0
      (checked_add-eq-some u64_mod s1 (hour * 3600) e2).0
      (checked_add-eq-some u64_mod s2 (minute * 60) e3).0
      (checked_add-eq-some u64_mod s3 second e4).0 (checked_mul-eq-some u64_mod s4 1000 e5).0
      (checked_add-eq-some u64_mod s5 millis h16).0
