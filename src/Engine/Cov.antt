-- ===== src/Engine/Cov.antt =====
-- crates/bacnet-sim-engine/src/cov_engine.rs: subscriptions to changes of value. What the engine
-- sends into its channel is the list of notifications that a check gives. Instants count seconds.
pub mod Unique
pub mod Lives
use bacnet_sim.Prelude.{
  ℕ, ◌-◌, ◌+◌, ◌≡◌, ◌↔◌, Bool, true, false, not, ◌&&◌, Option, none, some, List, [], ◌∷◌, ◌++◌,
  arith, if◌then◌else◌, ltb, ◌==◌, length,
}
use mathlib.Core.Option.{get_or}
use bacnet_sim.Prelude.Maps.{Map, Key, insert, remove}
use bacnet_sim.Types.Equality.{same_object, same_object_iff, same_property}
use bacnet_sim.Types.PropertyId.{PropertyIdentifier}
use bacnet_sim.Types.Value.{ObjectId, PropertyValue}
use bacnet_sim.Stack.Addresses.{same_address, same_address_iff}
use bacnet_sim.Stack.Router.{NetworkAddress}

pub record CovSubKey : Type 0 where
  pub subscriber : NetworkAddress
  pub process_id : ℕ
  pub object_id : ObjectId
  pub device_id : ℕ

pub record CovSubscription : Type 0 where
  pub confirmed : Bool
  pub lifetime_secs : Option ℕ
  pub subscribed_at : ℕ
  pub cov_increment : Option ℕ
  pub monitored_prop : Option PropertyIdentifier
  pub last_notified_at : ℕ
  pub last_value : PropertyValue

pub record CovNotification : Type 0 where
  pub subscriber : NetworkAddress
  pub process_id : ℕ
  pub device_id : ℕ
  pub object_id : ObjectId
  pub changed_properties : List (PropertyIdentifier × PropertyValue)
  pub confirmed : Bool

-- Equality of keys, as `derive(PartialEq)` has it.
unfoldable pub same_key : CovSubKey → CovSubKey → Bool
same_key a b =
    same_address a.subscriber b.subscriber
    && a.process_id == b.process_id
    && same_object a.object_id b.object_id
    && a.device_id == b.device_id

pub same_key_iff : (a b : CovSubKey) → (same_key a b ≡ true) ↔ (a ≡ b)
unfolding same_key
same_key_iff a b =
    ground
      (arith, same_address_iff a.subscriber b.subscriber, same_object_iff a.object_id b.object_id)

instance abbrev pub cov_key : Key CovSubKey
cov_key = record { same = same_key; same_iff = same_key_iff }

abbrev pub Subscriptions : Type 0
Subscriptions = Map CovSubKey CovSubscription

unfoldable pub subscribe : Subscriptions → CovSubKey → CovSubscription → Subscriptions
subscribe m key sub = insert m key sub

unfoldable pub unsubscribe : Subscriptions → CovSubKey → Subscriptions
unsubscribe m key = remove m key

unfoldable pub active_count : Subscriptions → ℕ
active_count m = length m

-- The tests on values that the platform and `derive(PartialEq)` give: `(new - old).abs() >= incr` on
-- bit patterns, and equality of values.
pub record Comparisons : Type 0 where
  pub moved_by : ℕ → ℕ → ℕ → Bool
  pub equal : PropertyValue → PropertyValue → Bool

unfoldable pub is_monitored : Option PropertyIdentifier → PropertyIdentifier → Bool
is_monitored none property_id = true
is_monitored (some monitored) property_id = same_property monitored property_id

-- 0 is the bit pattern of 0.0.
unfoldable pub should_notify : Comparisons → PropertyValue → PropertyValue → Option ℕ → Bool
should_notify c (PropertyValue.real new) (PropertyValue.real old) incr =
    c.moved_by new old (get_or incr 0)
should_notify c new old incr = not (c.equal new old)

pub record Checked : Type 0 where
  pub subscriptions : Subscriptions
  pub notifications : List CovNotification
  pub notified : Bool

module _ (c : Comparisons) (device_id : ℕ) (object_id : ObjectId) (property_id : PropertyIdentifier)
    (new_value : PropertyValue) (now : ℕ) where
  -- The subscription is to this property of this object.
  unfoldable pub is_subject : CovSubKey → CovSubscription → Bool
  is_subject key sub =
      key.device_id == device_id
      && same_object key.object_id object_id
      && is_monitored sub.monitored_prop property_id

  unfoldable pub notification : CovSubKey → CovSubscription → CovNotification
  notification key sub = record {
    subscriber = key.subscriber;
    process_id = key.process_id;
    device_id = device_id;
    object_id = object_id;
    changed_properties = (property_id, new_value) ∷ [];
    confirmed = sub.confirmed;
  }

  unfoldable pub fires : CovSubKey → CovSubscription → Bool
  fires key sub = is_subject key sub && should_notify c new_value sub.last_value sub.cov_increment

  unfoldable pub check_and_notify : Subscriptions → Checked
  check_and_notify [] = record { subscriptions = []; notifications = []; notified = false }
  check_and_notify ((key, sub) ∷ m) =
      let rest = check_and_notify m in
      if fires key sub
      then record {
        subscriptions =
            (key, record sub { last_value = new_value; last_notified_at = now })
            ∷ rest.subscriptions;
        notifications = notification key sub ∷ rest.notifications;
        notified = true;
      }
      else record rest { subscriptions = (key, sub) ∷ rest.subscriptions }

-- `duration_since` stops at zero.
unfoldable pub is_alive : ℕ → CovSubscription → Option ℕ → Bool
is_alive now sub none = true
is_alive now sub (some lifetime) = ltb (now - sub.subscribed_at) lifetime

-- The subscriptions that are left, and the number of those removed.
unfoldable pub expire_old : ℕ → Subscriptions → Subscriptions × ℕ
expire_old now [] = ([], 0)
expire_old now ((key, sub) ∷ m) =
    let rest = expire_old now m in
    if is_alive now sub sub.lifetime_secs
    then ((key, sub) ∷ rest.0, rest.1)
    else (rest.0, rest.1 + 1)
