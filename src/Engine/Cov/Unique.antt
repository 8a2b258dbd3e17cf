-- ===== src/Engine/Cov/Unique.antt =====
-- The keys of the subscriptions in cov_engine.rs: how each operation treats them.
use bacnet_sim.Prelude.{
  ℕ, ◌≡◌, inl, inr, Option, none, some, [], ◌∷◌, arith, if◌then◌else◌, refl, ap, ◌∙◌, Bool-cases,
}
use bacnet_sim.Prelude.Maps.{lookup, Unique}
use bacnet_sim.Types.PropertyId.{PropertyIdentifier}
use bacnet_sim.Types.Value.{ObjectId, PropertyValue}
use bacnet_sim.Engine.Cov.{
  CovSubKey, CovSubscription, same_key_iff, cov_key, Subscriptions, Comparisons, fires,
  check_and_notify, is_alive, expire_old,
}

module _ (c : Comparisons) (device_id : ℕ) (object_id : ObjectId) (property_id : PropertyIdentifier)
    (value : PropertyValue) (now : ℕ) where
  abbrev pub step : CovSubKey → Option CovSubscription → Option CovSubscription
  step key none = none
  step key (some sub) = some (
      if fires c device_id object_id property_id value now key sub
      then record sub { last_value = value; last_notified_at = now }
      else sub)

  pub lookup-check :
      (m : Subscriptions) (key : CovSubKey)
      → lookup (check_and_notify c device_id object_id property_id value now m).subscriptions key
        ≡ step key (lookup m key)
  unfolding check_and_notify lookup
  lookup-check [] key = refl
  lookup-check ((k, sub) ∷ m) key = ground (arith, same_key_iff k key, lookup-check m key)

  pub check-Unique :
      (m : Subscriptions)
      → Unique m
      → Unique (check_and_notify c device_id object_id property_id value now m).subscriptions
  unfolding check_and_notify
  check-Unique [] u = tt
  check-Unique ((k, sub) ∷ m) (fresh, u) =
      let gone = lookup-check m k ∙ ap (step k) fresh in
      let rest = check-Unique m u in
      elim (Bool-cases (fires c device_id object_id property_id value now k sub)) [
        | inl e ↦ rw e (gone, rest)
        | inr e ↦ rw e (gone, rest)
      ]

pub lookup-expire_none :
    (now : ℕ) (m : Subscriptions) (key : CovSubKey)
    → lookup m key ≡ none
    → lookup (expire_old now m).0 key ≡ none
unfolding expire_old lookup
lookup-expire_none now [] key h = refl
lookup-expire_none now ((k, s) ∷ m) key h = ground (arith, lookup-expire_none now m key)

pub expire-Unique : (now : ℕ) (m : Subscriptions) → Unique m → Unique (expire_old now m).0
unfolding expire_old
expire-Unique now [] u = tt
expire-Unique now ((k, s) ∷ m) (fresh, u) = elim (Bool-cases (is_alive now s s.lifetime_secs)) [
  | inl e ↦ rw e (lookup-expire_none now m k fresh, expire-Unique now m u)
  | inr e ↦ rw e (expire-Unique now m u)
]
