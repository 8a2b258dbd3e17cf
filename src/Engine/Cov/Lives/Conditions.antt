-- ===== src/Engine/Cov/Lives/Conditions.antt =====
-- The tests of cov_engine.rs on a subscription and a value, as conditions.
use bacnet_sim.Prelude.{
  ℕ, ◌≡◌, ◌↔◌, ◌⊎◌, inl, inr, true, false, Option, none, some, arith, refl, ap, ==_iff,
}
use bacnet_sim.Types.Equality.{same_object_iff, same_property, same_property_iff}
use bacnet_sim.Types.PropertyId.{PropertyIdentifier}
use bacnet_sim.Types.Value.{PropertyValue}
use bacnet_sim.Engine.Cov.{
  CovSubKey, CovSubscription, cov_key, Comparisons, should_notify, is_monitored, is_subject,
  notification, fires,
}
use bacnet_sim.Engine.Cov.Lives.{
  Report, IsReal, IsChange, moves, moves_at_all, differs, IsAbout, news,
}

should_notify-IsChange :
    (c : Comparisons) (incr : Option ℕ) (new old : PropertyValue)
    → should_notify c new old incr ≡ true
    → IsChange c incr new old
unfolding should_notify
should_notify-IsChange c none (PropertyValue.real new) (PropertyValue.real old) h =
    moves_at_all new old refl h
should_notify-IsChange c (some d) (PropertyValue.real new) (PropertyValue.real old) h =
    moves new old d refl h
should_notify-IsChange c incr (PropertyValue.real new) old h =
    differs (PropertyValue.real new) old (λ r. r.1) (ground arith)
should_notify-IsChange c incr new old h = differs new old (λ r. r.0) (ground arith)

should_notify_differing :
    (c : Comparisons) (incr : Option ℕ) (new old : PropertyValue)
    → ¬ (IsReal new × IsReal old)
    → c.equal new old ≡ false
    → should_notify c new old incr ≡ true
unfolding should_notify
should_notify_differing c incr (PropertyValue.real new) (PropertyValue.real old) mixed e =
    absurd (mixed (tt, tt))
should_notify_differing c incr (PropertyValue.real new) old mixed e = rw e refl
should_notify_differing c incr new old mixed e = rw e refl

IsChange-should_notify :
    (c : Comparisons) (incr : Option ℕ) (new old : PropertyValue)
    → IsChange c incr new old
    → should_notify c new old incr ≡ true
unfolding should_notify
IsChange-should_notify c incr _ _ (moves new old d e h) = rw e h
IsChange-should_notify c incr _ _ (moves_at_all new old e h) = rw e h
IsChange-should_notify c incr _ _ (differs new old mixed e) =
    should_notify_differing c incr new old mixed e

is_monitored_iff :
    (monitored : Option PropertyIdentifier) (p : PropertyIdentifier)
    → (is_monitored monitored p ≡ true) ↔ ((monitored ≡ none) ⊎ (monitored ≡ some p))
unfolding is_monitored
is_monitored_iff none p = (λ h. inl refl, λ h. refl)
is_monitored_iff (some q) p = (λ h. inr (ap some ((same_property_iff q p).0 h)), of_equal)
  where
    of_equal : ((some q ≡ none) ⊎ (some q ≡ some p)) → same_property q p ≡ true
    of_equal (inl e) = cc
    of_equal (inr e) = (same_property_iff q p).1 cc

module _ (c : Comparisons) (key : CovSubKey) (sub : CovSubscription) (r : Report) where
  pub fires-IsAbout :
      fires c r.device_id r.object_id r.property_id r.value r.now key sub ≡ true
      → IsAbout key sub r × IsChange c sub.cov_increment r.value sub.last_value
  unfolding fires is_subject
  fires-IsAbout h = (
    record {
      device = ground arith;
      object = (same_object_iff key.object_id r.object_id).0 (ground arith);
      property = (is_monitored_iff sub.monitored_prop r.property_id).0 (ground arith);
    },
    should_notify-IsChange c sub.cov_increment r.value sub.last_value (ground arith),
  )

  pub IsAbout-fires :
      IsAbout key sub r
      → IsChange c sub.cov_increment r.value sub.last_value
      → fires c r.device_id r.object_id r.property_id r.value r.now key sub ≡ true
  unfolding fires is_subject
  IsAbout-fires about change =
      rw
        (
          (==_iff key.device_id r.device_id).1 about.device,
          (same_object_iff key.object_id r.object_id).1 about.object,
          (is_monitored_iff sub.monitored_prop r.property_id).1 about.property,
          IsChange-should_notify c sub.cov_increment r.value sub.last_value change,
        )
        refl

  pub notification-news :
      IsAbout key sub r
      → notification c r.device_id r.object_id r.property_id r.value r.now key sub ≡ news key sub r
  unfolding notification
  notification-news about = rw (about.device, about.object) refl
