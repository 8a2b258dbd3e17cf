-- ===== src/Objects/Schedule/Current.antt =====
-- What a schedule whose days are sorted shows.
use bacnet_sim.Prelude.{
  ℕ, ◌+◌, ◌-◌, ◌%◌, ◌≤◌, ◌<◌, ◌≡◌, refl, sym, ap, ◌∙◌, false, Option, none, some, [], ◌∷◌, ◌++◌,
  arith, if◌then◌else◌, leb, le→leb, get_elem?, ok, All,
}
use mathlib.Core.Option.{get_or}
use bacnet_sim.Types.Value.{PropertyValue, Weekday, weekday_number}
use bacnet_sim.Objects.Calendar.{weekday_of_day, utc_date}
use bacnet_sim.Objects.Schedule.{
  TimeValue, DailySchedule, Schedule, last_started, active_at, day_of_week, evaluate_at, tick,
}

-- Each slot starts no later than those behind it.
abbrev pub Sorted : DailySchedule → Type 0
Sorted [] = Unit
Sorted (s ∷ slots) =
    All (λ (u : TimeValue). s.time_of_day_secs ≤ u.time_of_day_secs) slots × Sorted slots

-- The first slot, if there is one, starts later.
abbrev pub NotYet : ℕ → DailySchedule → Type 0
NotYet time [] = Unit
NotYet time (s ∷ slots) = time < s.time_of_day_secs

-- The value that the day has for a time: none before its first slot, else that of a slot that has
-- started while the next one has not.
pub data Current (time : ℕ) : DailySchedule → Option PropertyValue → Type 0 where
  before_first : {slots : DailySchedule} → NotYet time slots → Current time slots none
  running :
      (before after : DailySchedule) (s : TimeValue)
      → s.time_of_day_secs ≤ time
      → NotYet time after
      → Current time (before ++ (s ∷ after)) (some s.value)

later_on :
    (time start : ℕ) (slots : DailySchedule)
    → time < start
    → All (λ (u : TimeValue). start ≤ u.time_of_day_secs) slots
    → All (λ (u : TimeValue). time < u.time_of_day_secs) slots
later_on time start [] less h = tt
later_on time start (s ∷ slots) less (here, h) = (omega arith, later_on time start slots less h)

still_ahead :
    (time : ℕ) (slots : DailySchedule)
    → Sorted slots
    → NotYet time slots
    → All (λ (u : TimeValue). time < u.time_of_day_secs) slots
still_ahead time [] sorted h = tt
still_ahead time (s ∷ slots) (first, sorted) h = (h, later_on time s.time_of_day_secs slots h first)

none_started :
    (slots : DailySchedule) (active : Option PropertyValue) (time : ℕ)
    → All (λ (u : TimeValue). time < u.time_of_day_secs) slots
    → last_started active slots time ≡ active
unfolding last_started
none_started [] active time h = refl
none_started (s ∷ slots) active time (later, h) =
    let closed : leb s.time_of_day_secs time ≡ false = ground (arith, later) in
    rw closed (none_started slots active time h)

running_started :
    (before after : DailySchedule) (s : TimeValue) (active : Option PropertyValue) (time : ℕ)
    → Sorted (before ++ (s ∷ after))
    → s.time_of_day_secs ≤ time
    → NotYet time after
    → last_started active (before ++ (s ∷ after)) time ≡ some s.value
unfolding last_started
running_started [] after s active time (first, sorted) started next =
    let now_active : (if leb s.time_of_day_secs time then some s.value else active) ≡ some s.value =
      rw (le→leb s.time_of_day_secs time started) refl in
    ap (λ (a : Option PropertyValue). last_started a after time) now_active
    ∙ none_started after (some s.value) time (still_ahead time after sorted next)
running_started (u ∷ before) after s active time (first, sorted) started next =
    running_started before after s _ time sorted started next

active_at-Current :
    (time : ℕ) (slots : DailySchedule) (v : Option PropertyValue)
    → Sorted slots
    → Current time slots v
    → active_at slots time ≡ v
active_at-Current time slots none sorted (before_first h) =
    none_started slots none time (still_ahead time slots sorted h)
active_at-Current time _ _ sorted (running before after s started next) =
    running_started before after s none time sorted started next

number-weekday : (n : ℕ) → n < 7 → weekday_number (weekday_of_day n) ≡ n + 1
unfolding weekday_of_day weekday_number
number-weekday n small = ground arith

day_of_week-utc_date : (secs : ℕ) → weekday_number (utc_date secs).weekday ≡ day_of_week secs + 1
unfolding utc_date
day_of_week-utc_date secs = number-weekday (day_of_week secs) (omega arith)

-- The weekly schedule has Monday's slots first.
abbrev pub slots_on : Schedule → Weekday → Option DailySchedule
slots_on o weekday = get_elem? o.weekly_schedule (weekday_number weekday - 1)

-- A schedule in service, ticked at an instant, shows the value that the slots for the weekday of
-- the device's date at that instant have for the time of the day, or its default before the first
-- of those slots, where they are sorted.
pub tick-Current :
    (o : Schedule) (secs : ℕ) (slots : DailySchedule) (v : Option PropertyValue)
    → o.out_of_service ≡ false
    → slots_on o (utc_date secs).weekday ≡ some slots
    → Sorted slots
    → Current (secs % 86400) slots v
    → tick o secs ≡ ok (record o { present_value = get_or v o.schedule_default })
unfolding tick evaluate_at
tick-Current o secs slots v in_service today sorted current =
    let same_day : weekday_number (utc_date secs).weekday - 1 ≡ day_of_week secs =
      omega (arith, day_of_week-utc_date secs) in
    let found = sym (ap (get_elem? o.weekly_schedule) same_day) ∙ today in
    rw (in_service, found, active_at-Current (secs % 86400) slots v sorted current) refl
