-- ===== src/Objects/Calendar/Dates.antt =====
-- The device's date against the arithmetic of the Gregorian calendar.
use bacnet_sim.Prelude.{
  ℕ, zero, suc, ◌+◌, ◌-◌, ◌*◌, ◌/◌, ◌%◌, ◌≤◌, ◌<◌, ◌≡◌, inl, inr, refl, ap, ◌∙◌, Bool, true, false,
  ◌&&◌, List, [], ◌∷◌, arith, if◌then◌else◌, ltb, leb, ltb→lt, ◌==◌, ==_iff, Bool-cases, as_u8,
  as_u16, as_u32,
}
use bacnet_sim.Prelude.Safety.{ltb→le}
use bacnet_sim.Objects.Calendar.{
  is_leap, days_in_year, find_year, month_lens, find_month, weekday_of_day, utc_date,
}

-- The leap days of the years 1 to `y`.
abbrev pub leap_days : ℕ → ℕ
leap_days y = y / 4 + y / 400 - y / 100

-- The days of a year before a month.
abbrev pub month_offset : Bool → ℕ → ℕ
month_offset leap m = (367 * m - 362) / 12 - (if leb m 2 then 0 else if leap then 1 else 2)

-- The number of a day, day 1 being the 1st of January of the year 1.
abbrev pub day_number : ℕ → ℕ → ℕ → ℕ
day_number y m d = 365 * (y - 1) + leap_days (y - 1) + month_offset (is_leap y) m + d

abbrev pub month_length : Bool → ℕ → ℕ
month_length leap m = month_offset leap (m + 1) - month_offset leap m

year_step :
    (y : ℕ) → 1 ≤ y → 365 * y + leap_days y ≡ 365 * (y - 1) + leap_days (y - 1) + days_in_year y
unfolding is_leap days_in_year
year_step y h = ground arith

days_in_year-bounds : (y : ℕ) → (365 ≤ days_in_year y) × (days_in_year y ≤ 366)
unfolding days_in_year
days_in_year-bounds y = ground arith

find_year-day_number :
    (rounds days year : ℕ)
    → 1 ≤ year
    → days < 365 * rounds
    → ((find_year rounds days year).1 < days_in_year (find_year rounds days year).0)
      × (year ≤ (find_year rounds days year).0)
      × (365 * ((find_year rounds days year).0 - 1)
            + leap_days ((find_year rounds days year).0 - 1)
            + (find_year rounds days year).1
          ≡ 365 * (year - 1) + leap_days (year - 1) + days)
unfolding find_year
find_year-day_number zero days year h enough = absurd (omega arith)
find_year-day_number (suc rounds) days year h enough =
    elim (Bool-cases (ltb days (days_in_year year))) [
      | inl e ↦ rw e (ltb→lt days (days_in_year year) e, omega arith, refl)
      | inr e ↦ rw e (
          let late : days_in_year year ≤ days = ltb→le _ _ e in
          let (a, b, c) =
            find_year-day_number rounds (days - days_in_year year) (year + 1) (omega arith)
              (omega (arith, days_in_year-bounds year)) in
          (a, omega arith, c ∙ omega (arith, year_step year h)))
    ]

-- A day of a year, counted from 0, against the month and the day that it falls on.
abbrev day_found : Bool → ℕ → ℕ × ℕ → Bool
day_found leap left (m, rest) =
    leb 1 m && leb m 12 && (month_offset leap m + rest == left) && ltb rest (month_length leap m)

abbrev lens_of : Bool → List ℕ
lens_of leap = 31 ∷ (if leap then 29 else 28) ∷ 31 ∷ 30 ∷ 31 ∷ 30 ∷ 31 ∷ 31 ∷ 30 ∷ 31 ∷ 30 ∷ 31 ∷ []

and_left : (a b : Bool) → (a && b) ≡ true → a ≡ true
and_left true b h = refl
and_left false b h = h

and_right : (a b : Bool) → (a && b) ≡ true → b ≡ true
and_right true b h = h
and_right false b h = cc

abbrev check_below : (ℕ → Bool) → ℕ → Bool
check_below p zero = true
check_below p (suc n) = check_below p n && p n

check_below-at : (p : ℕ → Bool) (n i : ℕ) → check_below p n ≡ true → i < n → p i ≡ true
check_below-at p zero i h less = absurd (omega arith)
check_below-at p (suc n) i h less = elim (Bool-cases (i == n)) [
  | inl e ↦ ap p ((==_iff i n).0 e) ∙ and_right (check_below p n) (p n) h
  | inr e ↦ check_below-at p n i (and_left (check_below p n) (p n) h) (ground (arith, e, less))
]

abbrev check_day : Bool → ℕ → Bool
check_day leap n = day_found leap n (find_month (lens_of leap) 1 n)

-- Every day of a leap year, and of one that is none.
all_days_found :
    (check_below (check_day true) 366 ≡ true) × (check_below (check_day false) 365 ≡ true)
unfolding find_month
all_days_found = (refl, refl)

day_found-year : (y left : ℕ) → left < days_in_year y → check_day (is_leap y) left ≡ true
unfolding days_in_year
day_found-year y left h = by_kind (is_leap y) h
  where
    by_kind : (leap : Bool) → left < (if leap then 366 else 365) → check_day leap left ≡ true
    by_kind true less = check_below-at (check_day true) 366 left all_days_found.0 less
    by_kind false less = check_below-at (check_day false) 365 left all_days_found.1 less

four_tests :
    (m x left rest len : ℕ)
    → (leb 1 m && leb m 12 && (x == left) && ltb rest len) ≡ true
    → (1 ≤ m) × (m ≤ 12) × (x ≡ left) × (rest < len)
four_tests m x left rest len h = ground arith

-- What the test says.
found_facts :
    (leap : Bool) (left m rest : ℕ)
    → day_found leap left (m, rest) ≡ true
    → (1 ≤ m) × (m ≤ 12) × (month_offset leap m + rest ≡ left) × (rest < month_length leap m)
found_facts leap left m rest h =
    four_tests m (month_offset leap m + rest) left rest (month_length leap m) h

month_length-le : (leap : Bool) (m : ℕ) → 1 ≤ m → m ≤ 12 → month_length leap m ≤ 31
month_length-le leap m lo hi = ground arith

-- The fields of the date, each in its machine width.
abbrev IsDay : ℕ → ℕ → ℕ → ℕ → Type 0
IsDay y m d days =
    (day_number y m d ≡ 719163 + days)
    × (1 ≤ m)
    × (m ≤ 12)
    × (1 ≤ d)
    × (d ≤ month_length (is_leap y) m)

fields-IsDay :
    (y left m rest days : ℕ)
    → days < 20000000
    → 365 * (y - 1) + leap_days (y - 1) + left ≡ 365 * 1969 + leap_days 1969 + days
    → (1 ≤ m)
      × (m ≤ 12)
      × (month_offset (is_leap y) m + rest ≡ left)
      × (rest < month_length (is_leap y) m)
    → IsDay (as_u16 y) m (as_u8 (rest + 1)) days
fields-IsDay y left m rest days small total (lo, hi, offset, inside) =
    let year_fits : as_u16 y ≡ y = omega (arith, total, small) in
    let day_fits : as_u8 (rest + 1) ≡ rest + 1 =
      omega (arith, month_length-le (is_leap y) m lo hi, inside) in
    rw (year_fits, day_fits)
      (omega (arith, total, offset), lo, hi, omega arith, omega (arith, inside))

-- Up to the year 50,000 and beyond, the date that the device reads off a clock is the day that the
-- clock says: its number in the Gregorian calendar is that of the 1st of January 1970 and the days
-- since then, its month is one of twelve, its day one of the month, and its weekday goes with its
-- number.
pub utc_date-day_number :
    (secs : ℕ)
    → secs / 86400 < 20000000
    → (day_number (utc_date secs).year (utc_date secs).month (utc_date secs).day
        ≡ 719163 + secs / 86400)
      × (1 ≤ (utc_date secs).month)
      × ((utc_date secs).month ≤ 12)
      × (1 ≤ (utc_date secs).day)
      × ((utc_date secs).day ≤ month_length (is_leap (utc_date secs).year) (utc_date secs).month)
      × ((utc_date secs).weekday ≡ weekday_of_day ((719163 + secs / 86400 + 6) % 7))
unfolding utc_date month_lens
utc_date-day_number secs small =
    let days = secs / 86400 in
    let fits : as_u32 days ≡ days = omega arith in
    let (inside, later, total) =
      find_year-day_number (days / 365 + 1) days 1970 (omega arith) (omega arith) in
    let year = (find_year (days / 365 + 1) days 1970).0 in
    let left = (find_year (days / 365 + 1) days 1970).1 in
    let facts = found_facts (is_leap year) left _ _ (day_found-year year left inside) in
    let (a, b, c, d, e) = fields-IsDay year left _ _ days small total facts in
    rw fits (a, b, c, d, e, ap weekday_of_day (omega arith))
