-- ===== src/Runs/Changes.antt =====
-- The theorem on subscriptions at one subscriber to a temperature.
use bacnet_sim.Prelude.{ℕ, ◌-◌, ◌+◌, Bool, true, false, none, some, List, [], ◌∷◌, leb}
use native.Mathlib.Decide.{ℕ_discrete}
use bacnet_sim.Prelude.Maps.{lookup, insert}
use bacnet_sim.Types.ObjectType.{ObjectType}
use bacnet_sim.Types.PropertyId.{PropertyIdentifier}
use bacnet_sim.Types.Value.{ObjectId, PropertyValue}
use bacnet_sim.Types.Equality.{same_object, same_property}
use bacnet_sim.Stack.Addresses.{same_address, same_mac}
use bacnet_sim.Stack.Router.{ms_tp}
use bacnet_sim.Engine.Cov.{
  CovSubKey, CovSubscription, cov_key, same_key, subscribe, Comparisons, is_subject, is_monitored,
  should_notify, check_and_notify, notification, fires, expire_old, is_alive,
}
use bacnet_sim.Engine.Cov.Lives.{
  Report, Operation, subscribes, checks, expires, perform, run, sent_to, news, Life,
}
use bacnet_sim.Engine.Cov.Lives.Turns.{run-Life}

-- Numbers in place of floats.
same_value : PropertyValue → PropertyValue → Bool
same_value PropertyValue.null PropertyValue.null = true
same_value a b = false

abbrev comparisons : Comparisons
comparisons = record {
  moved_by = λ new old incr. leb incr ((new - old) + (old - new));
  equal = same_value;
}

abbrev sensor : ObjectId
sensor = record { object_type = ObjectType.analog_input; instance = 1 }

abbrev display : CovSubKey
display = record {
  subscriber = record { network_number = 0; mac = ms_tp 4 };
  process_id = 1;
  object_id = sensor;
  device_id = 7;
}

abbrev by_five : CovSubscription
by_five = record {
  confirmed = false;
  lifetime_secs = none;
  subscribed_at = 0;
  cov_increment = some 5;
  monitored_prop = some PropertyIdentifier.present_value;
  last_notified_at = 0;
  last_value = PropertyValue.real 293;
}

abbrev reading : ℕ → ℕ → Report
reading v now = record {
  device_id = 7;
  object_id = sensor;
  property_id = PropertyIdentifier.present_value;
  value = PropertyValue.real v;
  now = now;
}

-- The last one first.
abbrev operations : List Operation
operations =
    expires 9 ∷ checks (reading 300 5) ∷ checks (reading 295 3) ∷ subscribes display by_five ∷ []

display_is_told_once :
    Life comparisons display operations
      (some (record by_five { last_value = PropertyValue.real 300; last_notified_at = 5 }))
      (news display by_five (reading 300 5) ∷ [])
unfolding run perform sent_to subscribe insert lookup same_key same_object same_property
    same_address same_mac is_subject is_monitored ℕ_discrete check_and_notify notification fires
    should_notify expire_old is_alive
display_is_told_once = run-Life comparisons operations display
