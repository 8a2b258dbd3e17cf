-- ===== src/Objects/NotificationClass.antt =====
-- crates/bacnet-object/src/notification_class.rs: the routing of alarms. Nothing of it is
-- writable, and it reports no change.
use bacnet_sim.Prelude.{ℕ, Bool, false, Option, List, [], ◌∷◌, Outcome, ok, err}
use bacnet_sim.Types.Error.{BacnetError, unknown_property, write_access_denied}
use bacnet_sim.Types.ObjectType.{ObjectType, as_u16 as type_code}
use bacnet_sim.Types.PropertyId.{PropertyIdentifier}
use bacnet_sim.Types.Value.{ObjectId, PropertyValue}

pub record NotificationClass : Type 0 where
  pub device_id : ℕ
  pub object_id : ObjectId
  pub object_name : List ℕ
  pub description : List ℕ
  pub priority : List ℕ
  pub ack_required : List Bool
  pub notification_class : ℕ

unfoldable pub new : ℕ → ℕ → List ℕ → NotificationClass
new device_id instance name = record {
  device_id = device_id;
  object_id = record { object_type = ObjectType.notification_class; instance = instance };
  object_name = name;
  description = [];
  priority = 111 ∷ 111 ∷ 111 ∷ [];
  ack_required = false ∷ false ∷ false ∷ [];
  notification_class = instance;
}

unfoldable pub read_property :
    NotificationClass → PropertyIdentifier → Option ℕ → Outcome BacnetError PropertyValue
read_property o PropertyIdentifier.object_identifier i = ok (PropertyValue.object_id o.object_id)
read_property o PropertyIdentifier.object_name i = ok (PropertyValue.character_string o.object_name)
read_property o PropertyIdentifier.object_type i =
    ok (PropertyValue.enumerated (type_code ObjectType.notification_class))
read_property o PropertyIdentifier.description i = ok (PropertyValue.character_string o.description)
read_property o PropertyIdentifier.notification_class i =
    ok (PropertyValue.unsigned o.notification_class)
read_property o _ i = err unknown_property

-- An error leaves the object as it is.
unfoldable pub write_property :
    NotificationClass
    → PropertyIdentifier
    → PropertyValue
    → Option ℕ
    → ℕ
    → Outcome BacnetError NotificationClass
write_property o p value priority now = err write_access_denied

unfoldable pub all_properties : NotificationClass → List (PropertyIdentifier × PropertyValue)
all_properties o =
    (PropertyIdentifier.object_identifier, PropertyValue.object_id o.object_id)
    ∷ (PropertyIdentifier.object_name, PropertyValue.character_string o.object_name)
    ∷ (
      PropertyIdentifier.object_type,
      PropertyValue.enumerated (type_code ObjectType.notification_class),
    )
    ∷ (PropertyIdentifier.description, PropertyValue.character_string o.description)
    ∷ (PropertyIdentifier.notification_class, PropertyValue.unsigned o.notification_class)
    ∷ []
