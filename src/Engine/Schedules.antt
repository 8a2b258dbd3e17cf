-- ===== src/Engine/Schedules.antt =====
-- crates/bacnet-sim-engine/src/schedule_engine.rs: what schedules show, written to their targets.
-- `now` is the clock's reading during the writes.
pub mod Drives
use bacnet_sim.Prelude.{ℕ, Option, none, some, List, [], ◌∷◌, ◌++◌, Outcome, ok, err, panic, ◌>>=◌}
use bacnet_sim.Types.Error.{BacnetError}
use bacnet_sim.Types.PropertyId.{PropertyIdentifier}
use bacnet_sim.Types.Value.{ObjectId, PropertyValue}
use bacnet_sim.Objects.Interface.{BacnetObject}
use bacnet_sim.Objects.Store.{Store, ObjectRef, get, guarded_read, guarded_write}

pub record ScheduleOutput : Type 0 where
  pub schedule_device : ℕ
  pub schedule_object : ObjectId
  pub target_device : ℕ
  pub target_object : ObjectId
  pub target_property : PropertyIdentifier

unfoldable pub add_output : List ScheduleOutput → ScheduleOutput → List ScheduleOutput
add_output outputs output = outputs ++ (output ∷ [])

-- A value that is there and is not null.
unfoldable pub shown :
    Outcome BacnetError PropertyValue → Outcome BacnetError (Option PropertyValue)
shown (ok PropertyValue.null) = ok none
shown (ok value) = ok (some value)
shown (err e) = ok none
shown panic = panic

-- `let _ =` before a write: a store that it leaves on an error is the one before.
unfoldable pub ignore_error : {S : Type 0} → S → Outcome BacnetError S → Outcome BacnetError S
ignore_error store (ok written) = ok written
ignore_error store (err e) = ok store
ignore_error store panic = panic

module _ {O : Type 0} (object : BacnetObject O) where
  unfoldable pub read_shown :
      Store O → Option ObjectRef → Outcome BacnetError (Option PropertyValue)
  read_shown store none = ok none
  read_shown store (some ref) =
      shown (guarded_read object store ref PropertyIdentifier.present_value none)

  unfoldable pub write_target :
      Store O
      → Option ObjectRef
      → PropertyIdentifier
      → PropertyValue
      → ℕ
      → Outcome BacnetError (Store O)
  write_target store none p value now = ok store
  write_target store (some ref) p value now =
      ignore_error store (guarded_write object store ref p none value none now)

  module _ (hash : ℕ → ℕ → ℕ) where
    unfoldable pub write_shown :
        Store O → ScheduleOutput → Option PropertyValue → ℕ → Outcome BacnetError (Store O)
    write_shown store out none now = ok store
    write_shown store out (some value) now =
        write_target store (get hash store out.target_device out.target_object) out.target_property
          value now

    unfoldable pub tick : List ScheduleOutput → Store O → ℕ → Outcome BacnetError (Store O)
    tick [] store now = ok store
    tick (out ∷ outputs) store now = do
      value ← read_shown store (get hash store out.schedule_device out.schedule_object)
      driven ← write_shown store out value now
      tick outputs driven now
