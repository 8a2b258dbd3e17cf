-- ===== src/Objects/Calendar.antt =====
-- crates/bacnet-object/src/device.rs: the calendar behind the device's local date and time.
pub mod Dates
use bacnet_sim.Prelude.{
  ℕ, zero, suc, ◌+◌, ◌-◌, ◌*◌, ◌/◌, ◌%◌, ◌^◌, ◌≤◌, ◌<◌, ◌≡◌, ◌≢◌, ◌↔◌, ◌⊎◌, inl, inr, refl, sym, ap,
  ◌∙◌, Bool, true, false, not, ◌&&◌, ◌||◌, Option, none, some, List, [], ◌∷◌, ◌++◌, map, min, max,
  arith, if◌then◌else◌, ltb, leb, ◌==◌, ==_iff, lt→ltb, le→ltb, le→leb, Bool-cases, Option-cases,
  length, get_elem?, take, drop, take-append, drop-append, length-append, length-drop, get_at,
  get_past, get_at_add, drop_at_suc, drop_at, drop_at_append, length_at, length_at_append,
  slice_tail, slice_at, take_all, Outcome, ok, err, panic, ◌>>=◌, ◌>>◌, fail_if, ok_or, or_panic,
  index, slice, shr, low_bits, has_bit, as_u8, as_u16, as_u32, be32, be32_bytes, IsU32, append_nil,
  replicate, set, All, bit_or-add,
}
use bacnet_sim.Types.Value.{BacnetDate, BacnetTime, Weekday}

unfoldable pub is_leap : ℕ → Bool
is_leap y = (y % 4 == 0 && not (y % 100 == 0)) || (y % 400 == 0)

unfoldable pub days_in_year : ℕ → ℕ
days_in_year year = if is_leap year then 366 else 365

-- The loop over the years, with a bound on its rounds, of which a round takes 365 days at least: the year and the days left in it.
unfoldable pub find_year : ℕ → ℕ → ℕ → ℕ × ℕ
find_year zero days year = (year, days)
find_year (suc rounds) days year =
    let later = find_year rounds (days - days_in_year year) (year + 1) in
    if ltb days (days_in_year year) then (year, days) else later

unfoldable pub month_lens : ℕ → List ℕ
month_lens year =
    31 ∷ (if is_leap year then 29 else 28) ∷ 31 ∷ 30 ∷ 31 ∷ 30 ∷ 31 ∷ 31 ∷ 30 ∷ 31 ∷ 30 ∷ 31 ∷ []

-- The loop over the months, `month` the number of the first of those left: the month, or 1 if none
-- of them is reached, and the days left.
unfoldable pub find_month : List ℕ → ℕ → ℕ → ℕ × ℕ
find_month [] month days = (1, days)
find_month (ml ∷ lens) month days =
    let later = find_month lens (month + 1) (days - ml) in
    if ltb days ml then (month, days) else later

unfoldable pub weekday_of_day : ℕ → Weekday
weekday_of_day n =
    if n == 0
    then Weekday.monday
    else if n == 1
    then Weekday.tuesday
    else if n == 2
    then Weekday.wednesday
    else if n == 3
    then Weekday.thursday
    else if n == 4
    then Weekday.friday
    else if n == 5
    then Weekday.saturday
    else Weekday.sunday

unfoldable pub utc_date : ℕ → BacnetDate
utc_date secs =
    let (year, left) = find_year (as_u32 (secs / 86400) / 365 + 1) (as_u32 (secs / 86400)) 1970 in
    let (month, rest) = find_month (month_lens year) 1 left in
    record {
      year = as_u16 year;
      month = month;
      day = as_u8 (rest + 1);
      weekday = weekday_of_day ((secs / 86400 + 3) % 7);
    }

unfoldable pub utc_time : ℕ → BacnetTime
utc_time secs = record {
  hour = as_u8 (secs / 3600 % 24);
  minute = as_u8 (secs / 60 % 60);
  second = as_u8 (secs % 60);
  hundredths = 0;
}

-- `secs` is the clock's reading.
abbrev pub current_utc : ℕ → BacnetDate × BacnetTime
current_utc secs = (utc_date secs, utc_time secs)
