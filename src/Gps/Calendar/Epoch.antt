-- ===== src/Gps/Calendar/Epoch.antt =====
-- The calendar loops against the closed form of the Gregorian calendar
-- (firmware/golfer/src/gps.rs).
use golfer.Prelude.{
  ℕ, Bool, each_below, false, if◌then◌else◌, ltb, none, refl, some, true, ◌*◌, ◌+◌, ◌-◌, ◌/◌, ◌==◌,
  ◌≡◌, >>=-eq-some, arith, checked_add-eq-some, guard, guard-eq-some, leb, length, u32_mod, ◌&&◌,
  ◌<◌, ◌||◌, ◌≤◌, checked_add, ◌⊎◌, All, List, Option, [], each_below-eq_true, ap, subst, ◌∙◌, ◌∷◌,
  ==_iff, Bool-cases, inl, inr, sym, some-eq,
}
use golfer.Gps.Calendar.{
  days_in_month, days_since_unix_epoch, is_leap_year, month_loop, year_loop, is_one_of,
}

-- Days from 1 January 1970, by the closed form. Counted from March, a leap day ends its year, and
-- the months that are over have (153 * months + 2) / 5 days.
abbrev civil_from_march : ℕ → ℕ → ℕ → ℕ
civil_from_march year months day =
    365 * year + year / 4 - year / 100 + year / 400 + (153 * months + 2) / 5 + day - 719469

abbrev pub civil_days : ℕ → ℕ → ℕ → ℕ
civil_days year month day =
    if ltb month 3
    then civil_from_march (year - 1) (month + 9) day
    else civil_from_march year (month - 3) day

-- A row of the table: the day number of the first of a month, and how far the month goes.
abbrev row_test : ℕ → ℕ → Option ℕ → Bool
row_test y m none = false
row_test y m (some n) =
    n == civil_days (1970 + y) (1 + m) 1 && ltb (n + 31) 40178 && (ltb y 54 || leb 19723 n)

abbrev row_holds : ℕ → ℕ → Bool
row_holds y m = row_test y m (days_since_unix_epoch (1970 + y) (1 + m) 1)

table : each_below (λ y. each_below (λ m. row_holds y m) 12) 110 ≡ true
unfolding each_below days_since_unix_epoch days_in_month year_loop month_loop is_leap_year
table = refl

tests_date :
    (year month : ℕ)
    → 1970 ≤ year
    → 1 ≤ month
    → month ≤ 12
    → leb 1970 year && leb 1 month && leb month 12 ≡ true
tests_date year month y m m' = ground arith

tests_day : (day dim : ℕ) → 1 ≤ day → day ≤ dim → leb 1 day && leb day dim ≡ true
tests_day day dim d d' = ground arith

add_some : (a b c : ℕ) → a + b ≡ c → c < u32_mod → checked_add u32_mod a b ≡ some c
add_some a b c h lt = ground arith

date_tests :
    (year month : ℕ)
    → leb 1970 year && leb 1 month && leb month 12 ≡ true
    → (1970 ≤ year) × (1 ≤ month) × (month ≤ 12)
date_tests year month h = ground arith

day_tests : (day dim : ℕ) → leb 1 day && leb day dim ≡ true → (1 ≤ day) × (day ≤ dim)
day_tests day dim h = ground arith

-- What a date that is accepted says of its month and of the two loops.
date_parts :
    (year month day n : ℕ)
    → days_since_unix_epoch year month day ≡ some n
    → (dim years start : ℕ) × (1970 ≤ year)
      × (1 ≤ month)
      × (month ≤ 12)
      × (days_in_month year month ≡ some dim)
      × (1 ≤ day)
      × (day ≤ dim)
      × (year_loop (year - 1970) 1970 0 ≡ some years)
      × (month_loop (month - 1) year 1 years ≡ some start)
      × (start + (day - 1) ≡ n)
      × (n < u32_mod)
unfolding days_since_unix_epoch
date_parts year month day n h =
    let (_, g, h1) = >>=-eq-some (guard (leb 1970 year && leb 1 month && leb month 12)) _ h in
    let (dim, size, h2) = >>=-eq-some (days_in_month year month) _ h1 in
    let (_, g', h3) = >>=-eq-some (guard (leb 1 day && leb day dim)) _ h2 in
    let (years, loop, h4) = >>=-eq-some (year_loop (year - 1970) 1970 0) _ h3 in
    let (start, loop', h5) = >>=-eq-some (month_loop (month - 1) year 1 years) _ h4 in
    let (sum, lt) = checked_add-eq-some u32_mod start (day - 1) h5 in
    let tests =
      date_tests year month (guard-eq-some (leb 1970 year && leb 1 month && leb month 12) g) in
    let days = day_tests day dim (guard-eq-some (leb 1 day && leb day dim) g') in
    (dim, years, start, tests.0, tests.1, tests.2, size, days.0, days.1, loop, loop', sum, lt)

-- Within a month the day number moves with the day.
other_day :
    (year month day n dim other : ℕ)
    → days_since_unix_epoch year month day ≡ some n
    → days_in_month year month ≡ some dim
    → 1 ≤ other
    → other ≤ dim
    → n + other < u32_mod
    → days_since_unix_epoch year month other ≡ some (n + other - day)
unfolding days_since_unix_epoch
other_day year month day n dim other h length low high small =
    let (_, years, start, y, m, m', _, d, _, loop, loop', sum, _) = date_parts year month day n h in
    rw (
      tests_date year month y m m',
      length,
      tests_day other dim low high,
      loop,
      loop',
      add_some start (other - 1) (n + other - day) (omega (arith, sum, d, low))
          (omega (arith, sum, d, small)),
    )

-- A row of the table, as a statement.
abbrev Row : ℕ → ℕ → Type 0
Row year month =
    (start : ℕ) × (days_since_unix_epoch year month 1 ≡ some start)
    × (start ≡ civil_days year month 1)
    × (start + 31 < 40178)
    × ((year < 2024) ⊎ (19723 ≤ start))

row_tests :
    (y n civil : ℕ)
    → n == civil && ltb (n + 31) 40178 && (ltb y 54 || leb 19723 n) ≡ true
    → (n ≡ civil) × (n + 31 < 40178) × ((1970 + y < 2024) ⊎ (19723 ≤ n))
row_tests y n civil h = ground arith

Row-some :
    (y m : ℕ) (o : Option ℕ)
    → days_since_unix_epoch (1970 + y) (1 + m) 1 ≡ o
    → row_test y m o ≡ true
    → Row (1970 + y) (1 + m)
Row-some y m none e h = cc
Row-some y m (some n) e h =
    let (civil, bound, after) = row_tests y n (civil_days (1970 + y) (1 + m) 1) h in
    (n, e, civil, bound, after)

Row-of : (year month : ℕ) → 1970 ≤ year → year < 2080 → 1 ≤ month → month ≤ 12 → Row year month
Row-of year month y y' m m' =
    let row =
      each_below-eq_true (λ m. row_holds (year - 1970) m) (month - 1) 12 (omega arith)
        (each_below-eq_true (λ y. each_below (λ m. row_holds y m) 12) (year - 1970) 110
          (omega arith) table) in
    let e : 1970 + (year - 1970) ≡ year = omega arith in
    let e' : 1 + (month - 1) ≡ month = omega arith in
    subst (λ (t : ℕ). Row t month) e
      (subst (λ (t : ℕ). Row (1970 + (year - 1970)) t) e'
        (Row-some (year - 1970) (month - 1) _ refl row))

is_one_of-All : (P : ℕ → Type 0) (ms : List ℕ) (n : ℕ) → All P ms → is_one_of ms n ≡ true → P n
is_one_of-All P [] n h e = cc
is_one_of-All P (m ∷ ms) n h e = elim (Bool-cases (n == m)) [
  | inl same ↦ subst P (sym ((==_iff n m).0 same)) h.0
  | inr other ↦ is_one_of-All P ms n h.1 (rw other at e)
]

abbrev Month : ℕ → Type 0
Month month = (1 ≤ month) × (month ≤ 12)

arms-bounds :
    (a b c leap : Bool) (month dim : ℕ)
    → (a ≡ true → Month month)
    → (b ≡ true → Month month)
    → (c ≡ true → Month month)
    → (if a
        then some 31
        else if b
        then some 30
        else if c
        then some (if leap then 29 else 28)
        else none)
      ≡ some dim
    → (1 ≤ month) × (month ≤ 12) × (dim ≤ 31)
arms-bounds a b c leap month dim ha hb hc e = ground arith

days_in_month-bounds :
    (year month dim : ℕ)
    → days_in_month year month ≡ some dim
    → (1 ≤ month) × (month ≤ 12) × (dim ≤ 31)
unfolding days_in_month
days_in_month-bounds year month dim h =
    arms-bounds (is_one_of (1 ∷ 3 ∷ 5 ∷ 7 ∷ 8 ∷ 10 ∷ 12 ∷ []) month)
      (is_one_of (4 ∷ 6 ∷ 9 ∷ 11 ∷ []) month) (month == 2) (is_leap_year year) month dim
      (is_one_of-All Month (1 ∷ 3 ∷ 5 ∷ 7 ∷ 8 ∷ 10 ∷ 12 ∷ []) month (omega arith))
      (is_one_of-All Month (4 ∷ 6 ∷ 9 ∷ 11 ∷ []) month (omega arith))
      (λ two. omega (arith, (==_iff month 2).0 two)) h

march_day :
    (year months day : ℕ)
    → 1 ≤ day
    → (1970 ≤ year) ⊎ ((1969 ≤ year) × (10 ≤ months))
    → civil_from_march year months 1 + day - 1 ≡ civil_from_march year months day
march_day year months day d y = omega arith

civil_day :
    (year month day : ℕ)
    → 1 ≤ day
    → 1 ≤ month
    → 1970 ≤ year
    → civil_days year month 1 + day - 1 ≡ civil_days year month day
civil_day year month day d m y = elim (Bool-cases (ltb month 3)) [
  | inl early ↦ rw early (march_day (year - 1) (month + 9) day d (inr (omega arith, omega arith)))
  | inr late ↦ rw late (march_day year (month - 3) day d (inl y))
]

-- Every date from 1970 to 2079 has the day number of the Gregorian calendar.
pub days_since_unix_epoch-civil :
    (year month day dim : ℕ)
    → 1970 ≤ year
    → year < 2080
    → days_in_month year month ≡ some dim
    → 1 ≤ day
    → day ≤ dim
    → days_since_unix_epoch year month day ≡ some (civil_days year month day)
days_since_unix_epoch-civil year month day dim y y' size d d' =
    let (m, m', dim_le) = days_in_month-bounds year month dim size in
    let (start, first, civil, bound, _) = Row-of year month y y' m m' in
    other_day year month 1 start dim day first size d d' (omega arith)
    ∙ ap some (ap (λ (t : ℕ). t + day - 1) civil ∙ civil_day year month day d m y)

day_bounds :
    (year start day dim n : ℕ)
    → start + 31 < 40178
    → (year < 2024) ⊎ (19723 ≤ start)
    → 2024 ≤ year
    → 1 ≤ day
    → day ≤ dim
    → dim ≤ 31
    → start + day - 1 ≡ n
    → (19723 ≤ n) × (n < 40177)
day_bounds year start day dim n bound after y d d' dim_le e = omega arith

-- The day numbers of the dates from 2024 to 2079.
pub days_since_unix_epoch-bounds :
    (year month day n : ℕ)
    → 2024 ≤ year
    → year < 2080
    → days_since_unix_epoch year month day ≡ some n
    → (19723 ≤ n) × (n < 40177)
days_since_unix_epoch-bounds year month day n y y' h =
    let (dim, _, _, _, m, m', size, d, d', _, _, _, _) = date_parts year month day n h in
    let (_, _, dim_le) = days_in_month-bounds year month dim size in
    let (start, first, _, bound, after) = Row-of year month (omega arith) y' m m' in
    let moved = other_day year month 1 start dim day first size d d' (omega arith) in
    day_bounds year start day dim n bound after y d d' dim_le (some-eq (sym moved ∙ h))
