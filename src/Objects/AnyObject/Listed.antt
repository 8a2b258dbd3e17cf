-- ===== src/Objects/AnyObject/Listed.antt =====
-- What an object lists is what it reads.
use bacnet_sim.Prelude.{ℕ, ◌≡◌, refl, ap, Option, none, some, List, ◌++◌, ok, All}
use bacnet_sim.Types.PropertyId.{PropertyIdentifier}
use bacnet_sim.Types.Value.{PropertyValue}
use bacnet_sim.Objects.AnalogInput
use bacnet_sim.Objects.AnalogOutput
use bacnet_sim.Objects.AnalogValue
use bacnet_sim.Objects.BinaryInput
use bacnet_sim.Objects.BinaryOutput
use bacnet_sim.Objects.BinaryValue
use bacnet_sim.Objects.MultiState
use bacnet_sim.Objects.NotificationClass
use bacnet_sim.Objects.Schedule
use bacnet_sim.Objects.Device
use bacnet_sim.Objects.TrendLog
use bacnet_sim.Objects.AnalogInput.{AnalogInput, limit_entry, limit_value}
use bacnet_sim.Objects.Device.{read_list}
use bacnet_sim.Objects.AnyObject.{
  AnyObject, analog_input, analog_output, analog_value, binary_input, binary_output, binary_value,
  multi_state_input, notification_class, schedule, device, trend_log, read_property, all_properties,
}

-- Every property of the list is read, without an index, as the value it is listed with.
abbrev pub IsListed : ℕ → AnyObject → List (PropertyIdentifier × PropertyValue) → Type 0
IsListed secs o entries =
    All (λ (e : PropertyIdentifier × PropertyValue). read_property secs o e.0 none ≡ ok e.1) entries

limits-IsListed :
    (secs : ℕ) (o : AnalogInput) (hi lo : Option ℕ)
    → o.high_limit ≡ hi
    → o.low_limit ≡ lo
    → IsListed secs (analog_input o) (
        limit_entry PropertyIdentifier.high_limit hi ++ limit_entry PropertyIdentifier.low_limit lo)
unfolding read_property AnalogInput.read_property limit_entry limit_value
limits-IsListed secs o none none h l = tt
limits-IsListed secs o none (some b) h l = (ap limit_value l, tt)
limits-IsListed secs o (some a) none h l = (ap limit_value h, tt)
limits-IsListed secs o (some a) (some b) h l = (ap limit_value h, (ap limit_value l, tt))

-- At any instant, every property that an object of any kind lists among all its properties is read,
-- without an array index, as the value it is listed with.
pub all_properties-read : (secs : ℕ) (o : AnyObject) → IsListed secs o (all_properties o)
unfolding all_properties read_property AnalogInput.all_properties AnalogInput.read_property
    AnalogOutput.all_properties AnalogOutput.read_property AnalogValue.all_properties
    AnalogValue.read_property BinaryInput.all_properties BinaryInput.read_property
    BinaryOutput.all_properties BinaryOutput.read_property BinaryValue.all_properties
    BinaryValue.read_property MultiState.all_properties MultiState.read_property
    NotificationClass.all_properties NotificationClass.read_property Schedule.all_properties
    Schedule.read_property Device.all_properties Device.read_property TrendLog.all_properties
    TrendLog.read_property read_list
all_properties-read secs (analog_input o) = (
  refl,
  (
    refl,
    (
      refl,
      (
        refl,
        (
          refl,
          (
            refl,
            (
              refl,
              (
                refl,
                (refl, (refl, (refl, limits-IsListed secs o o.high_limit o.low_limit refl refl))),
              ),
            ),
          ),
        ),
      ),
    ),
  ),
)
all_properties-read secs (analog_output o) =
    (refl, (refl, (refl, (refl, (refl, (refl, (refl, (refl, tt))))))))
all_properties-read secs (analog_value o) =
    (refl, (refl, (refl, (refl, (refl, (refl, (refl, (refl, (refl, (refl, (refl, tt)))))))))))
all_properties-read secs (binary_input o) = (refl, (refl, (refl, (refl, (refl, (refl, tt))))))
all_properties-read secs (binary_output o) =
    (refl, (refl, (refl, (refl, (refl, (refl, (refl, (refl, (refl, tt)))))))))
all_properties-read secs (binary_value o) =
    (refl, (refl, (refl, (refl, (refl, (refl, (refl, (refl, (refl, tt)))))))))
all_properties-read secs (multi_state_input o) =
    (refl, (refl, (refl, (refl, (refl, (refl, (refl, (refl, (refl, (refl, tt))))))))))
all_properties-read secs (notification_class o) = (refl, (refl, (refl, (refl, (refl, tt)))))
all_properties-read secs (schedule o) = (refl, (refl, (refl, (refl, (refl, (refl, (refl, tt)))))))
all_properties-read secs (device o) = (
  refl,
  (
    refl,
    (
      refl,
      (
        refl,
        (
          refl,
          (
            refl,
            (
              refl,
              (
                refl,
                (
                  refl,
                  (
                    refl,
                    (refl, (refl, (refl, (refl, (refl, (refl, (refl, (refl, (refl, tt))))))))),
                  ),
                ),
              ),
            ),
          ),
        ),
      ),
    ),
  ),
)
all_properties-read secs (trend_log o) =
    (refl, (refl, (refl, (refl, (refl, (refl, (refl, (refl, (refl, (refl, (refl, tt)))))))))))
