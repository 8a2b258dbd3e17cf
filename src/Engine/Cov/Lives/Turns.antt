-- ===== src/Engine/Cov/Lives/Turns.antt =====
-- One operation of cov_engine.rs, and all of them, for one subscription.
use bacnet_sim.Prelude.{
  ℕ, ◌-◌, ◌≡◌, ◌≢◌, inl, inr, false, Option, none, some, List, [], ◌∷◌, ◌++◌, arith, if◌then◌else◌,
  refl, Bool-cases, ltb,
}
use bacnet_sim.Prelude.Maps.{
  lookup, lookup-insert, lookup-remove, Unique, insert-Unique, remove-Unique,
}
use bacnet_sim.Engine.Cov.Unique.{
  step, lookup-check, check-Unique, lookup-expire_none, expire-Unique,
}
use bacnet_sim.Engine.Cov.{
  CovSubKey, CovSubscription, CovNotification, same_key, same_key_iff, cov_key, Subscriptions,
  subscribe, unsubscribe, Comparisons, fires, check_and_notify, is_alive, expire_old,
}
use bacnet_sim.Engine.Cov.Lives.{
  Report, Operation, subscribes, unsubscribes, checks, expires, perform, run, sent_to, news, Turn,
  Life, made, ended, other_made, other_ended, notified, passed_over, not_there, expired, alive,
  unlimited, gone, begin, turn,
}
use bacnet_sim.Engine.Cov.Lives.Conditions.{fires-IsAbout, IsAbout-fires, notification-news}

sent_to-append :
    (key : CovSubKey) (ns more : List CovNotification)
    → sent_to key (ns ++ more) ≡ sent_to key ns ++ sent_to key more
unfolding sent_to
sent_to-append key [] more = refl
sent_to-append key (n ∷ ns) more = ground (arith, sent_to-append key ns more)

module _ (c : Comparisons) (r : Report) (key : CovSubKey) where
  abbrev told : Option CovSubscription → List CovNotification
  told none = []
  told (some sub) =
      if fires c r.device_id r.object_id r.property_id r.value r.now key sub
      then news key sub r ∷ []
      else []

  sent_to-check :
      (m : Subscriptions)
      → Unique m
      → sent_to key
          (check_and_notify c r.device_id r.object_id r.property_id r.value r.now m).notifications
        ≡ told (lookup m key)
  unfolding check_and_notify lookup sent_to
  sent_to-check [] u = refl
  sent_to-check ((k, sub) ∷ m) (fresh, u) =
      elim (Bool-cases (fires c r.device_id r.object_id r.property_id r.value r.now k sub)) [
        | inl e ↦
            rw (e, notification-news c k sub r (fires-IsAbout c k sub r e).0)
              (ground (arith, same_key_iff k key, fresh, sent_to-check m u, e))
        | inr e ↦ rw e (ground (arith, same_key_iff k key, fresh, sent_to-check m u, e))
      ]

  check-Turn :
      (o : Option CovSubscription)
      → Turn c key
          (checks r)
          o
          (step c r.device_id r.object_id r.property_id r.value r.now key o)
          (told o)
  check-Turn none = not_there r
  check-Turn (some sub) =
      elim (Bool-cases (fires c r.device_id r.object_id r.property_id r.value r.now key sub)) [
        | inl e ↦
            (let (about, change) = fires-IsAbout c key sub r e in
              rw e (notified r sub about change))
        | inr e ↦
            rw e (passed_over r sub λ h. (let yes_fires = IsAbout-fires c key sub r h.0 h.1 in cc))
      ]

abbrev kept : ℕ → Option CovSubscription → Option CovSubscription
kept now none = none
kept now (some sub) = if is_alive now sub sub.lifetime_secs then some sub else none

lookup-expire :
    (now : ℕ) (m : Subscriptions) (key : CovSubKey)
    → Unique m
    → lookup (expire_old now m).0 key ≡ kept now (lookup m key)
unfolding expire_old lookup
lookup-expire now [] key u = refl
lookup-expire now ((k, s) ∷ m) key (fresh, u) =
    ground
      (arith, lookup-expire now m key u, lookup-expire_none now m key, same_key_iff k key, fresh)

alive-Turn :
    (c : Comparisons) (key : CovSubKey) (now : ℕ) (sub : CovSubscription) (lifetime : Option ℕ)
    → sub.lifetime_secs ≡ lifetime
    → Turn c key (expires now) (some sub) (if is_alive now sub lifetime then some sub else none) []
unfolding is_alive
alive-Turn c key now sub none e = unlimited now sub e
alive-Turn c key now sub (some lifetime) e =
    elim (Bool-cases (ltb (now - sub.subscribed_at) lifetime)) [
      | inl h ↦ rw h (alive now lifetime sub e (ground arith))
      | inr h ↦ rw h (expired now lifetime sub e (ground arith))
    ]

expire-Turn :
    (c : Comparisons) (key : CovSubKey) (now : ℕ) (o : Option CovSubscription)
    → Turn c key (expires now) o (kept now o) []
expire-Turn c key now none = gone now
expire-Turn c key now (some sub) = alive-Turn c key now sub sub.lifetime_secs refl

perform-Unique :
    (c : Comparisons) (m : Subscriptions) (o : Operation) → Unique m → Unique (perform c m o).0
unfolding perform subscribe unsubscribe
perform-Unique c m (subscribes key sub) u = insert-Unique m key sub u
perform-Unique c m (unsubscribes key) u = remove-Unique m key u
perform-Unique c m (checks r) u =
    check-Unique c r.device_id r.object_id r.property_id r.value r.now m u
perform-Unique c m (expires now) u = expire-Unique now m u

run-Unique : (c : Comparisons) (operations : List Operation) → Unique (run c operations).0
unfolding run
run-Unique c [] = tt
run-Unique c (o ∷ earlier) = perform-Unique c (run c earlier).0 o (run-Unique c earlier)

apart : (k key : CovSubKey) → same_key k key ≡ false → k ≢ key
apart k key e equal = (let same = (same_key_iff k key).1 equal in cc)

perform-Turn :
    (c : Comparisons) (m : Subscriptions) (o : Operation) (key : CovSubKey)
    → Unique m
    → Turn c key o (lookup m key) (lookup (perform c m o).0 key) (sent_to key (perform c m o).1)
unfolding perform subscribe unsubscribe sent_to
perform-Turn c m (subscribes k sub) key u =
    rw (lookup-insert m k key sub) (elim (Bool-cases (same_key k key)) [
      | inl e ↦
          (let equal : k ≡ key = (same_key_iff k key).0 e in
            rw (e, equal) (made sub (lookup m key)))
      | inr e ↦ rw e (other_made k sub (lookup m key) (apart k key e))
    ])
perform-Turn c m (unsubscribes k) key u =
    rw (lookup-remove m k key) (elim (Bool-cases (same_key k key)) [
      | inl e ↦
          (let equal : k ≡ key = (same_key_iff k key).0 e in rw (e, equal) (ended (lookup m key)))
      | inr e ↦ rw e (other_ended k (lookup m key) (apart k key e))
    ])
perform-Turn c m (checks r) key u =
    rw
      (
        lookup-check c r.device_id r.object_id r.property_id r.value r.now m key,
        sent_to-check c r key m u,
      )
      (check-Turn c r key (lookup m key))
perform-Turn c m (expires now) key u =
    rw (lookup-expire now m key u) (expire-Turn c key now (lookup m key))

-- After any operations on a new engine, what it keeps under a key and the notifications that it has
-- sent for that key, in their order, are those of the key's own life: a subscription is replaced by
-- a new one under its key and ended by an unsubscription; a check of its device's object and its
-- property, or of any property if it names none, notifies it once, with the new value, which it then
-- compares with, where the value is a change, and no other check does; an expiry removes it if its
-- lifetime is over and only then; and no operation under another key touches it.
pub run-Life :
    (c : Comparisons) (operations : List Operation) (key : CovSubKey)
    → Life c key operations (lookup (run c operations).0 key) (sent_to key (run c operations).1)
unfolding run lookup sent_to
run-Life c [] key = begin
run-Life c (o ∷ earlier) key =
    rw (sent_to-append key (run c earlier).1 (perform c (run c earlier).0 o).1) (
      turn o earlier (lookup (run c earlier).0 key) (lookup (perform c (run c earlier).0 o).0 key)
        (sent_to key (run c earlier).1) (sent_to key (perform c (run c earlier).0 o).1)
        (run-Life c earlier key) (perform-Turn c (run c earlier).0 o key (run-Unique c earlier)))
