-- ===== src/Gps/Calendar.antt =====
-- The civil calendar of firmware/golfer/src/gps.rs: `is_leap_year`, `days_in_month` and
-- `days_since_unix_epoch`.
pub mod Epoch
use golfer.Prelude.{
  ℕ, zero, suc, ◌+◌, ◌-◌, ◌*◌, ◌/◌, ◌%◌, ◌≤◌, ◌<◌, ◌≡◌, Bool, true, false, Option, none, some,
  ◌>>=◌, List, [], ◌∷◌, ◌>>◌, ◌&&◌, ◌||◌, guard, checked_add, u32_mod, ltb, leb, ◌==◌,
  if◌then◌else◌, not,
}

unfoldable pub is_leap_year : ℕ → Bool
is_leap_year year = (year % 4 == 0 && not (year % 100 == 0)) || year % 400 == 0

-- A match arm with several numbers.
abbrev pub is_one_of : List ℕ → ℕ → Bool
is_one_of [] n = false
is_one_of (m ∷ ms) n = n == m || is_one_of ms n

unfoldable pub days_in_month : ℕ → ℕ → Option ℕ
unfolding is_leap_year
days_in_month year month =
    if is_one_of (1 ∷ 3 ∷ 5 ∷ 7 ∷ 8 ∷ 10 ∷ 12 ∷ []) month
    then some 31
    else if is_one_of (4 ∷ 6 ∷ 9 ∷ 11 ∷ []) month
    then some 30
    else if month == 2
    then some (if is_leap_year year then 29 else 28)
    else none

-- `while y < year`, by the rounds that are left.
unfoldable pub year_loop : ℕ → ℕ → ℕ → Option ℕ
unfolding is_leap_year
year_loop zero y days = some days
year_loop (suc rounds) y days = do
  days ← checked_add u32_mod days (if is_leap_year y then 366 else 365)
  year_loop rounds (y + 1) days

-- `while m < month`, by the rounds that are left.
unfoldable pub month_loop : ℕ → ℕ → ℕ → ℕ → Option ℕ
unfolding days_in_month
month_loop zero year m days = some days
month_loop (suc rounds) year m days = do
  length ← days_in_month year m
  days ← checked_add u32_mod days length
  month_loop rounds year (m + 1) days

unfoldable pub days_since_unix_epoch : ℕ → ℕ → ℕ → Option ℕ
unfolding days_in_month year_loop month_loop
days_since_unix_epoch year month day = do
  guard (leb 1970 year && leb 1 month && leb month 12)
  dim ← days_in_month year month
  guard (leb 1 day && leb day dim)
  days ← year_loop (year - 1970) 1970 0
  days ← month_loop (month - 1) year 1 days
  checked_add u32_mod days (day - 1)
