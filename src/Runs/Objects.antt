-- ===== src/Runs/Objects.antt =====
-- The theorems on the kinds of objects and the calendar at concrete objects and days.
use bacnet_sim.Prelude.{
  ℕ, ◌+◌, ◌-◌, ◌/◌, ◌%◌, ◌≤◌, ◌≡◌, refl, true, false, none, some, [], ◌∷◌, arith, ltb, ok,
}
use bacnet_sim.Types.Value.{PropertyValue, weekday_number}
use bacnet_sim.Types.Enumerations.{EngineeringUnits}
use bacnet_sim.Types.Floats.{Floats, as_f32, as_bool}
use bacnet_sim.Objects.AnalogInput
use bacnet_sim.Objects.AnalogInput.{AnalogInput}
use bacnet_sim.Objects.BinaryInput
use bacnet_sim.Objects.BinaryInput.{BinaryInput}
use bacnet_sim.Objects.MultiState
use bacnet_sim.Objects.MultiState.{MultiStateInput}
use bacnet_sim.Objects.AnyObject.{analog_input, binary_input, multi_state_input, all_properties}
use bacnet_sim.Objects.AnyObject.Listed.{IsListed, all_properties-read}
use bacnet_sim.Objects.AnyObject.Forcing.{force, sensors_forced}
use bacnet_sim.Objects.Schedule
use bacnet_sim.Objects.Schedule.{Schedule, TimeValue, DailySchedule, day_of_week, tick}
use bacnet_sim.Objects.Schedule.Current.{Current, tick-Current}
use bacnet_sim.Objects.Calendar.{utc_date, is_leap, weekday_of_day}
use bacnet_sim.Objects.Calendar.Dates.{day_number, month_length, utc_date-day_number}

-- Numbers in place of floats.
abbrev whole_numbers : Floats
whole_numbers = record {
  double_as_f32 = λ v. v;
  u32_as_f32 = λ v. v;
  i32_as_f32 = λ v. v;
  gt = λ a b. ltb b a;
  add = λ a b. a + b;
  sub = λ a b. a - b;
}

abbrev thermometer : AnalogInput
thermometer = AnalogInput.new 1 1 [] EngineeringUnits.kelvin 0

thermometer_reads_its_list :
    IsListed 0 (analog_input thermometer) (all_properties (analog_input thermometer))
thermometer_reads_its_list = all_properties-read 0 (analog_input thermometer)

abbrev door : BinaryInput
door = BinaryInput.new 1 2 [] 0

abbrev switch : MultiStateInput
switch = MultiState.new (λ n. n ∷ []) 1 3 [] 4 0

sensors_take_values :
    (force whole_numbers 0 5 (analog_input thermometer) (PropertyValue.real 293)
      ≡ ok (analog_input (record thermometer { present_value = 293; last_changed = 5 }), none))
    × (force whole_numbers 0 5 (binary_input door) (PropertyValue.boolean true)
        ≡ ok (binary_input (record door { present_value = true; last_changed = 5 }), none))
    × (force whole_numbers 0 5 (multi_state_input switch) (PropertyValue.unsigned 3)
        ≡ ok (multi_state_input (record switch { present_value = 3; last_changed = 5 }), none))
unfolding as_f32 as_bool MultiState.new
sensors_take_values =
    sensors_forced whole_numbers 0 5 thermometer door switch (PropertyValue.real 293)
      (PropertyValue.boolean true) 293 3 true refl refl (omega arith) (omega arith)

-- The 1st of January 2024.
abbrev new_year_2024 : ℕ
new_year_2024 = 1704067200

new_year_2024_is_a_day :
    (day_number
        (utc_date new_year_2024).year
        (utc_date new_year_2024).month
        (utc_date new_year_2024).day
      ≡ 719163 + new_year_2024 / 86400)
    × (1 ≤ (utc_date new_year_2024).month)
    × ((utc_date new_year_2024).month ≤ 12)
    × (1 ≤ (utc_date new_year_2024).day)
    × ((utc_date new_year_2024).day
        ≤ month_length (is_leap (utc_date new_year_2024).year) (utc_date new_year_2024).month)
    × ((utc_date new_year_2024).weekday ≡ weekday_of_day ((719163 + new_year_2024 / 86400 + 6) % 7))
new_year_2024_is_a_day = utc_date-day_number new_year_2024 (omega arith)

-- On from six, off from ten in the evening.
abbrev morning : TimeValue
morning = record { time_of_day_secs = 21600; value = PropertyValue.boolean true }

abbrev night : TimeValue
night = record { time_of_day_secs = 79200; value = PropertyValue.boolean false }

abbrev workday : DailySchedule
workday = morning ∷ night ∷ []

abbrev heating : Schedule
heating = record (Schedule.new 1 4 []) {
  weekly_schedule = workday ∷ workday ∷ workday ∷ workday ∷ workday ∷ [] ∷ [] ∷ [];
}

-- Noon of the 1st of January 2024, a Monday.
heating_is_on :
    tick heating (new_year_2024 + 43200)
    ≡ ok (record heating { present_value = PropertyValue.boolean true })
unfolding Schedule.new weekday_number utc_date weekday_of_day
heating_is_on =
    tick-Current heating (new_year_2024 + 43200) workday (some (PropertyValue.boolean true)) refl
      refl ((omega arith, tt), (tt, tt))
      (Current.running [] (night ∷ []) morning (omega arith) (omega arith))
