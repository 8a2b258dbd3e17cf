-- ===== src/Objects/Interface.antt =====
-- crates/bacnet-object/src/property.rs: what the store and the services ask of an object, and the
-- write that the simulation forces. An operation that fails leaves the object as it is. `now` is
-- the clock's reading during the write.
use bacnet_sim.Prelude.{
  ℕ, Bool, true, false, not, ◌&&◌, Option, none, some, List, if◌then◌else◌, Outcome, ok, err, panic,
  ◌>>=◌,
}
use bacnet_sim.Types.Error.{BacnetError, write_access_denied}
use bacnet_sim.Types.PropertyId.{PropertyIdentifier}
use bacnet_sim.Types.Value.{ObjectId, PropertyValue}

pub record BacnetObject (O : Type 0) : Type 0 where
  pub object_id : O → ObjectId
  pub read_property : O → PropertyIdentifier → Option ℕ → Outcome BacnetError PropertyValue
  pub write_property :
      O → PropertyIdentifier → Option ℕ → PropertyValue → Option ℕ → ℕ → Outcome BacnetError O
  pub all_properties : O → List (PropertyIdentifier × PropertyValue)

-- A call whose error is looked at: the object it leaves, and the error.
abbrev pub attempt :
    {O : Type 0} → O → Outcome BacnetError O → Outcome BacnetError (O × Option BacnetError)
attempt o (ok written) = ok (written, none)
attempt o (err e) = ok (o, some e)
attempt o panic = panic

unfoldable pub is_present_value : PropertyIdentifier → Bool
is_present_value PropertyIdentifier.present_value = true
is_present_value _ = false

-- `matches!(.., Ok(PropertyValue::Boolean(true)))`
unfoldable pub is_true : Outcome BacnetError PropertyValue → Bool
is_true (ok (PropertyValue.boolean true)) = true
is_true _ = false

module _ {O : Type 0} (object : BacnetObject O) where
  -- The middle part: the object is out of service during the write, and in service after it.
  unfoldable pub write_out_of_service :
      O → PropertyIdentifier → PropertyValue → ℕ → Outcome BacnetError (O × Option BacnetError)
  write_out_of_service o p value now = do
    (isolated, _refused) ← attempt o (
        object.write_property o PropertyIdentifier.out_of_service none (PropertyValue.boolean true)
          none now)
    (written, result) ← attempt isolated (object.write_property isolated p none value none now)
    (restored, _kept) ← attempt written (
        object.write_property written PropertyIdentifier.out_of_service none
          (PropertyValue.boolean false) none now)
    ok (restored, result)

  -- The object afterwards, and the error if there is one.
  unfoldable pub force_write_property :
      O → PropertyIdentifier → PropertyValue → ℕ → Outcome BacnetError (O × Option BacnetError)
  force_write_property o p value now = do
    (written, refused) ← attempt o (object.write_property o p none value none now)
    elim refused [
      | none ↦ ok (written, none)
      | some e ↦
          if is_present_value p
            && not (is_true (object.read_property written PropertyIdentifier.out_of_service none))
          then write_out_of_service written p value now
          else ok (written, some write_access_denied)
    ]
