-- ===== src/Engine/Cov/Lives.antt =====
-- cov_engine.rs from the side of one subscription: what becomes of it, and what it is sent.
pub mod Conditions
pub mod Turns
use bacnet_sim.Prelude.{
  ℕ, ◌-◌, ◌≤◌, ◌<◌, ◌≡◌, ◌≢◌, ◌↔◌, ◌⊎◌, inl, inr, Bool, true, false, Option, none, some, List, [],
  ◌∷◌, ◌++◌, arith, if◌then◌else◌, refl, sym, ap, ◌∙◌, Bool-cases, ◌==◌, ==_iff, not, ◌&&◌, ltb,
}
use mathlib.Core.Option.{get_or}
use bacnet_sim.Prelude.Maps.{
  lookup, lookup-insert, lookup-remove, Unique, insert-Unique, remove-Unique,
}
use bacnet_sim.Types.Equality.{same_object, same_object_iff, same_property, same_property_iff}
use bacnet_sim.Types.PropertyId.{PropertyIdentifier}
use bacnet_sim.Types.Value.{ObjectId, PropertyValue}
use bacnet_sim.Engine.Cov.Unique.{
  step, lookup-check, check-Unique, lookup-expire_none, expire-Unique,
}
use bacnet_sim.Engine.Cov.{
  CovSubKey, CovSubscription, CovNotification, same_key, same_key_iff, cov_key, Subscriptions,
  subscribe, unsubscribe, Comparisons, should_notify, is_monitored, is_subject, notification, fires,
  check_and_notify, is_alive, expire_old,
}

-- A check: the value that an object's property has at an instant.
pub record Report : Type 0 where
  pub device_id : ℕ
  pub object_id : ObjectId
  pub property_id : PropertyIdentifier
  pub value : PropertyValue
  pub now : ℕ

pub data Operation : Type 0 where
  subscribes : CovSubKey → CovSubscription → Operation
  unsubscribes : CovSubKey → Operation
  checks : Report → Operation
  expires : ℕ → Operation

-- The subscriptions and the notifications of one operation.
unfoldable pub perform :
    Comparisons → Subscriptions → Operation → Subscriptions × List CovNotification
perform c m (subscribes key sub) = (subscribe m key sub, [])
perform c m (unsubscribes key) = (unsubscribe m key, [])
perform c m (checks r) =
    let checked = check_and_notify c r.device_id r.object_id r.property_id r.value r.now m in
    (checked.subscriptions, checked.notifications)
perform c m (expires now) = ((expire_old now m).0, [])

-- A new engine after operations, the last one first, and the notifications sent, oldest first.
unfoldable pub run : Comparisons → List Operation → Subscriptions × List CovNotification
run c [] = ([], [])
run c (o ∷ earlier) =
    let (m, sent) = run c earlier in let (m', more) = perform c m o in (m', sent ++ more)

-- The key of the subscription that a notification is for.
abbrev pub addressee : CovNotification → CovSubKey
addressee n = record {
  subscriber = n.subscriber;
  process_id = n.process_id;
  object_id = n.object_id;
  device_id = n.device_id;
}

-- The notifications for one subscription.
unfoldable pub sent_to : CovSubKey → List CovNotification → List CovNotification
sent_to key [] = []
sent_to key (n ∷ ns) = if same_key (addressee n) key then n ∷ sent_to key ns else sent_to key ns

abbrev pub IsReal : PropertyValue → Type 0
IsReal (PropertyValue.real v) = Unit
IsReal _ = ⊥

-- A new value is worth a notification behind an old one: a real number that has moved from a real
-- number by the increment, 0 if none is given, or else a value that is not equal to the old one.
pub data IsChange (c : Comparisons) (incr : Option ℕ) : PropertyValue → PropertyValue → Type 0 where
  moves :
      (new old d : ℕ)
      → incr ≡ some d
      → c.moved_by new old d ≡ true
      → IsChange c incr (PropertyValue.real new) (PropertyValue.real old)
  moves_at_all :
      (new old : ℕ)
      → incr ≡ none
      → c.moved_by new old 0 ≡ true
      → IsChange c incr (PropertyValue.real new) (PropertyValue.real old)
  differs :
      (new old : PropertyValue)
      → ¬ (IsReal new × IsReal old)
      → c.equal new old ≡ false
      → IsChange c incr new old

-- A report is about what a subscription is for: the object, and one property of it or any.
pub record IsAbout (key : CovSubKey) (sub : CovSubscription) (r : Report) : Type 0 where
  pub device : key.device_id ≡ r.device_id
  pub object : key.object_id ≡ r.object_id
  pub property : (sub.monitored_prop ≡ none) ⊎ (sub.monitored_prop ≡ some r.property_id)

abbrev pub news : CovSubKey → CovSubscription → Report → CovNotification
news key sub r = record {
  subscriber = key.subscriber;
  process_id = key.process_id;
  device_id = key.device_id;
  object_id = key.object_id;
  changed_properties = (r.property_id, r.value) ∷ [];
  confirmed = sub.confirmed;
}

-- What an operation makes of a subscription, and the notifications for it.
pub data Turn (c : Comparisons) (key : CovSubKey)
    : Operation
      → Option CovSubscription
      → Option CovSubscription
      → List CovNotification
      → Type 0 where
  made :
      (sub : CovSubscription) (old : Option CovSubscription)
      → Turn c key (subscribes key sub) old (some sub) []
  ended : (old : Option CovSubscription) → Turn c key (unsubscribes key) old none []
  other_made :
      (k : CovSubKey) (sub : CovSubscription) (old : Option CovSubscription)
      → k ≢ key
      → Turn c key (subscribes k sub) old old []
  other_ended :
      (k : CovSubKey) (old : Option CovSubscription)
      → k ≢ key
      → Turn c key (unsubscribes k) old old []
  notified :
      (r : Report) (sub : CovSubscription)
      → IsAbout key sub r
      → IsChange c sub.cov_increment r.value sub.last_value
      → Turn c key
          (checks r)
          (some sub)
          (some (record sub { last_value = r.value; last_notified_at = r.now }))
          (news key sub r ∷ [])
  passed_over :
      (r : Report) (sub : CovSubscription)
      → ¬ (IsAbout key sub r × IsChange c sub.cov_increment r.value sub.last_value)
      → Turn c key (checks r) (some sub) (some sub) []
  not_there : (r : Report) → Turn c key (checks r) none none []
  expired :
      (now lifetime : ℕ) (sub : CovSubscription)
      → sub.lifetime_secs ≡ some lifetime
      → lifetime ≤ now - sub.subscribed_at
      → Turn c key (expires now) (some sub) none []
  alive :
      (now lifetime : ℕ) (sub : CovSubscription)
      → sub.lifetime_secs ≡ some lifetime
      → now - sub.subscribed_at < lifetime
      → Turn c key (expires now) (some sub) (some sub) []
  unlimited :
      (now : ℕ) (sub : CovSubscription)
      → sub.lifetime_secs ≡ none
      → Turn c key (expires now) (some sub) (some sub) []
  gone : (now : ℕ) → Turn c key (expires now) none none []

-- What operations, the last one first, make of a subscription that was not there, and all the
-- notifications for it, oldest first.
pub data Life (c : Comparisons) (key : CovSubKey)
    : List Operation → Option CovSubscription → List CovNotification → Type 0 where
  begin : Life c key [] none []
  turn :
      (o : Operation) (earlier : List Operation) (old new : Option CovSubscription)
      (sent more : List CovNotification)
      → Life c key earlier old sent
      → Turn c key o old new more
      → Life c key (o ∷ earlier) new (sent ++ more)
