-- ===== src/Engine/Schedules/Drives.antt =====
-- What the outputs of schedule_engine.rs do to the store in a tick.
use bacnet_sim.Prelude.{
  ℕ, ◌≡◌, ◌≢◌, inl, inr, refl, ◌∙◌, Option, none, some, List, [], ◌∷◌, Outcome, ok, err, panic,
  ◌>>=◌, ◌==◌, ◌&&◌, if◌then◌else◌, length,
}
use bacnet_sim.Types.Error.{BacnetError}
use bacnet_sim.Types.PropertyId.{PropertyIdentifier}
use bacnet_sim.Types.Value.{ObjectId, PropertyValue}
use bacnet_sim.Objects.Interface.{BacnetObject}
use bacnet_sim.Objects.Store.{
  num_shards, Store, object_key, get, put_back, guarded_read, guarded_write,
}
use bacnet_sim.Objects.Store.Find.{find, reference, find-cases, find-put_back, length-put_back}
use bacnet_sim.Stack.Dispatcher.Replies.{IsCalm}
use bacnet_sim.Engine.Schedules.{
  ScheduleOutput, shown, ignore_error, read_shown, write_target, write_shown, tick,
}

module _ {O : Type 0} (object : BacnetObject O) (hash : ℕ → ℕ → ℕ) (now : ℕ) where
  -- The schedule of an output has a present value to hand on.
  pub data Shows (store : Store O) (out : ScheduleOutput) (value : PropertyValue) : Type 0 where
    shows :
        (schedule : O)
        → find object hash store out.schedule_device out.schedule_object ≡ some schedule
        → object.read_property schedule PropertyIdentifier.present_value none ≡ ok value
        → value ≢ PropertyValue.null
        → Shows store out value

  -- It has none: it is not there, its present value cannot be read, or it is null.
  pub data ShowsNothing (store : Store O) (out : ScheduleOutput) : Type 0 where
    absent :
        find object hash store out.schedule_device out.schedule_object ≡ none
        → ShowsNothing store out
    unreadable :
        (schedule : O) (e : BacnetError)
        → find object hash store out.schedule_device out.schedule_object ≡ some schedule
        → object.read_property schedule PropertyIdentifier.present_value none ≡ err e
        → ShowsNothing store out
    null :
        (schedule : O)
        → find object hash store out.schedule_device out.schedule_object ≡ some schedule
        → object.read_property schedule PropertyIdentifier.present_value none
          ≡ ok PropertyValue.null
        → ShowsNothing store out

  -- What one output does to the store: its target takes the value, and no other identifier of the
  -- store changes, or the store stays as it is.
  pub data Drives (store : Store O) (out : ScheduleOutput) : Store O → Type 0 where
    idle : ShowsNothing store out → Drives store out store
    no_target :
        (value : PropertyValue)
        → Shows store out value
        → find object hash store out.target_device out.target_object ≡ none
        → Drives store out store
    refused :
        (value : PropertyValue) (target : O) (e : BacnetError)
        → Shows store out value
        → find object hash store out.target_device out.target_object ≡ some target
        → object.write_property target out.target_property none value none now ≡ err e
        → Drives store out store
    written :
        (value : PropertyValue) (target changed : O) (after : Store O)
        → Shows store out value
        → find object hash store out.target_device out.target_object ≡ some target
        → object.write_property target out.target_property none value none now ≡ ok changed
        → ((device : ℕ) (oid : ObjectId)
            → find object hash after device oid ≡ (
                if (out.target_device == device) && (object_key out.target_object == object_key oid)
                then some changed
                else find object hash store device oid))
        → Drives store out after

  -- The outputs one after the other, each on the store that the one before it left.
  pub data DrivesAll : List ScheduleOutput → Store O → Store O → Type 0 where
    done : (store : Store O) → DrivesAll [] store store
    next :
        (out : ScheduleOutput) (outputs : List ScheduleOutput) (store driven after : Store O)
        → Drives store out driven
        → DrivesAll outputs driven after
        → DrivesAll (out ∷ outputs) store after

  -- The value read, and what it says of the schedule.
  Reading : Store O → ScheduleOutput → Option PropertyValue → Type 0
  Reading store out none = ShowsNothing store out
  Reading store out (some value) = Shows store out value

  module _ (calm : IsCalm object) where
    shown-Reading :
        (store : Store O) (out : ScheduleOutput) (schedule : O)
        (r : Outcome BacnetError PropertyValue)
        → find object hash store out.schedule_device out.schedule_object ≡ some schedule
        → object.read_property schedule PropertyIdentifier.present_value none ≡ r
        → (value : Option PropertyValue) × (shown r ≡ ok value) × Reading store out value
    unfolding shown Reading
    shown-Reading store out schedule (ok PropertyValue.null) found reads =
        (none, refl, null schedule found reads)
    shown-Reading store out schedule (ok value) found reads =
        (some _, refl, shows schedule found reads (λ e. cc))
    shown-Reading store out schedule (err e) found reads =
        (none, refl, unreadable schedule e found reads)
    shown-Reading store out schedule panic found reads = absurd (calm.reads schedule _ _ reads)

    read_shown-Reading :
        (store : Store O) (out : ScheduleOutput)
        → (value : Option PropertyValue) × (read_shown object store
              (get hash store out.schedule_device out.schedule_object)
            ≡ ok value)
          × Reading store out value
    unfolding read_shown guarded_read Reading
    read_shown-Reading store out =
        elim (find-cases object hash store out.schedule_device out.schedule_object) [
          | inl (missing, absent_there) ↦ (none, rw missing refl, absent absent_there)
          | inr (schedule, there, holds, found) ↦
              rw (there, holds) (shown-Reading store out schedule _ found refl)
        ]

    ignore_error-Drives :
        (store : Store O) (out : ScheduleOutput) (value : PropertyValue) (target : O)
        (r : Outcome BacnetError O)
        → length store ≡ num_shards
        → Shows store out value
        → find object hash store out.target_device out.target_object ≡ some target
        → object.write_property target out.target_property none value none now ≡ r
        → (after : Store O) × (ignore_error store (
              r >>= λ changed.
              ok (
                put_back store (reference object hash out.target_device out.target_object) changed))
            ≡ ok after)
          × (length after ≡ num_shards)
          × Drives store out after
    unfolding ignore_error
    ignore_error-Drives store out value target (ok changed) full shows_it found writes =
        let ref = reference object hash out.target_device out.target_object in
        (
          put_back store ref changed,
          refl,
          length-put_back object hash store ref changed ∙ full,
          written value target changed (put_back store ref changed) shows_it found writes
              (λ device oid.
                find-put_back object hash store out.target_device out.target_object changed device
                  oid full),
        )
    ignore_error-Drives store out value target (err e) full shows_it found writes =
        (store, refl, full, refused value target e shows_it found writes)
    ignore_error-Drives store out value target panic full shows_it found writes =
        absurd (calm.writes target _ _ _ _ _ writes)

    write_shown-Drives :
        (store : Store O) (out : ScheduleOutput) (value : Option PropertyValue)
        → length store ≡ num_shards
        → Reading store out value
        → (after : Store O) × (write_shown object hash store out value now ≡ ok after)
          × (length after ≡ num_shards)
          × Drives store out after
    unfolding write_shown write_target guarded_write Reading
    write_shown-Drives store out none full nothing = (store, refl, full, idle nothing)
    write_shown-Drives store out (some value) full shows_it =
        elim (find-cases object hash store out.target_device out.target_object) [
          | inl (missing, absent_there) ↦
              (store, rw missing refl, full, no_target value shows_it absent_there)
          | inr (target, there, holds, found) ↦
              rw (there, holds)
                (ignore_error-Drives store out value target _ full shows_it found refl)
        ]

    -- Where no object's reads and writes panic, a tick over any outputs of a store of 256 shards gives
    -- a store, and it is the one that the outputs leave, one after the other: the target of an output
    -- whose schedule has a present value that is not null takes that value if it accepts it, nothing
    -- else in the store changes, and an output whose schedule or target is not there, whose schedule
    -- shows nothing or whose target refuses the value leaves the store as it is.
    pub tick-DrivesAll :
        (outputs : List ScheduleOutput) (store : Store O)
        → length store ≡ num_shards
        → (after : Store O) × (tick object hash outputs store now ≡ ok after)
          × DrivesAll outputs store after
    unfolding tick
    tick-DrivesAll [] store full = (store, refl, done store)
    tick-DrivesAll (out ∷ outputs) store full =
        let (value, reads, reading) = read_shown-Reading store out in
        let (driven, writes, driven_full, drives) =
          write_shown-Drives store out value full reading in
        let (after, rest, all) = tick-DrivesAll outputs driven driven_full in
        (after, rw (reads, writes) rest, next out outputs store driven after drives all)
