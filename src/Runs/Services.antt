-- ===== src/Runs/Services.antt =====
-- The theorems on the store and the dispatcher at concrete objects and frames.
use bacnet_sim.Prelude.{
  ℕ, ◌+◌, ◌≡◌, ◌≢◌, refl, true, false, Option, none, some, List, [], ◌∷◌, arith, drop, ok, panic,
  replicate,
}
use bacnet_sim.Prelude.Safety.{Gives}
use bacnet_sim.Types.ObjectType.{ObjectType, as_u16, from_u16}
use bacnet_sim.Types.PropertyId.{PropertyIdentifier, from_u32, first_arm}
use bacnet_sim.Types.Value.{ObjectId, PropertyValue}
use bacnet_sim.Types.Enumerations.{EngineeringUnits}
use bacnet_sim.Encoding.Tags.{
  decode_ctx_object_id, decode_lvt_len, be32_at, object_id_of_raw, decode_ctx_property_id,
  decode_ctx_u32, read_uint, has_context_tag,
}
use bacnet_sim.Codec.Optional.{decode_optional}
use bacnet_sim.Codec.Npdu.{
  Npdu, decode as decode_npdu, decode_specifier, decode_control, decode_hop_count,
}
use bacnet_sim.Codec.Confirmed.{
  ConfirmedRequest, ConfirmedServiceRequest, SubscribeCovRequest, MaxSegments,
  decode as decode_confirmed, decode_service, decode_read_property,
}
use bacnet_sim.Objects.AnalogValue
use bacnet_sim.Objects.AnalogValue.{AnalogValue}
use bacnet_sim.Objects.Interface.{BacnetObject}
use bacnet_sim.Objects.Store
use bacnet_sim.Objects.Store.{num_shards, bulk_insert}
use bacnet_sim.Objects.Store.Shards.{insert_each, bulk_insert-each}
use bacnet_sim.Objects.Store.Find.{find}
use bacnet_sim.Objects.Store.Latest.{latest, bulk_insert-latest}
use bacnet_sim.Stack.Router.{NetworkAddress, ms_tp}
use bacnet_sim.Prelude.Maps.{lookup}
use bacnet_sim.Stack.Addresses.{address_key}
use bacnet_sim.Stack.Dispatcher.{
  InboundFrame, ApduDispatcher, resolve_device, is_device, target_of, route_to, first_device,
}
use bacnet_sim.Stack.Dispatcher.Handlers.{handle_frame}
use bacnet_sim.Stack.Dispatcher.Replies.{IsCalm, IsReply, handle_frame-answers}
use bacnet_sim.Stack.Dispatcher.Sessions.{reads}
use bacnet_sim.Engine.Schedules.{ScheduleOutput, tick}
use bacnet_sim.Engine.Schedules.Drives.{DrivesAll, tick-DrivesAll}

abbrev as_it_is : List ℕ → List ℕ
as_it_is s = s

abbrev values : BacnetObject AnalogValue
values = record {
  object_id = λ o. o.object_id;
  read_property = AnalogValue.read_property;
  write_property = λ o p i v q now. AnalogValue.write_property o p v q now;
  all_properties = AnalogValue.all_properties;
}

reads_calm :
    (o : AnalogValue) (p : PropertyIdentifier) (i : Option ℕ)
    → AnalogValue.read_property o p i ≢ panic
unfolding AnalogValue.read_property
reads_calm o PropertyIdentifier.object_identifier i = λ h. cc
reads_calm o _ i = λ h. cc

present_value_calm :
    (o : AnalogValue) (v : PropertyValue) (now : ℕ)
    → AnalogValue.write_present_value o v now ≢ panic
unfolding AnalogValue.write_present_value
present_value_calm o (PropertyValue.real v) now = λ h. cc
present_value_calm o _ now = λ h. cc

out_of_service_calm :
    (o : AnalogValue) (v : PropertyValue) → AnalogValue.write_out_of_service o v ≢ panic
unfolding AnalogValue.write_out_of_service
out_of_service_calm o (PropertyValue.boolean v) = λ h. cc
out_of_service_calm o _ = λ h. cc

description_calm : (o : AnalogValue) (v : PropertyValue) → AnalogValue.write_description o v ≢ panic
unfolding AnalogValue.write_description
description_calm o (PropertyValue.character_string v) = λ h. cc
description_calm o _ = λ h. cc

writes_calm :
    (o : AnalogValue) (p : PropertyIdentifier) (i : Option ℕ) (v : PropertyValue) (q : Option ℕ)
    (now : ℕ)
    → AnalogValue.write_property o p v q now ≢ panic
unfolding AnalogValue.write_property
writes_calm o PropertyIdentifier.present_value i v q now = present_value_calm o v now
writes_calm o PropertyIdentifier.out_of_service i v q now = out_of_service_calm o v
writes_calm o PropertyIdentifier.description i v q now = description_calm o v
writes_calm o _ i v q now = λ h. cc

values-IsCalm : IsCalm values
values-IsCalm = record { reads = reads_calm; writes = writes_calm }

abbrev hash : ℕ → ℕ → ℕ
hash a b = a + b

abbrev value : ℕ → AnalogValue
value instance = AnalogValue.new 7 instance [] EngineeringUnits.percent 0

abbrev three_values : List (ℕ × AnalogValue)
three_values = (7, value 1) ∷ (7, value 2) ∷ (8, value 1) ∷ []

three_values_one_by_one :
    bulk_insert values hash (Store.new) three_values
    ≡ insert_each values hash (Store.new) three_values
unfolding Store.new
three_values_one_by_one = bulk_insert-each values hash Store.new three_values refl

abbrev value_1 : ObjectId
value_1 = record { object_type = ObjectType.analog_value; instance = 1 }

value_1_is_found :
    find values hash (bulk_insert values hash Store.new three_values) 7 value_1
    ≡ latest values hash three_values 7 value_1
unfolding AnalogValue.new
value_1_is_found =
    bulk_insert-latest values hash three_values 7 value_1
      (omega arith, (omega arith, (omega arith, tt))) (omega arith)

abbrev one_device : ApduDispatcher AnalogValue
one_device = record {
  devices = (7, record { device_id = 7; max_apdu = 1476; vendor_id = 999 }) ∷ [];
  store = replicate num_shards [];
  source_device_map = [];
}

abbrev station_3 : NetworkAddress
station_3 = record { network_number = 0; mac = ms_tp 3 }

abbrev station_4 : NetworkAddress
station_4 = record { network_number = 0; mac = ms_tp 4 }

-- A ReadProperty request for the present value of the analog value 1.
abbrev read_value_1 : List ℕ
read_value_1 = 0x00 ∷ 0x04 ∷ 9 ∷ 12 ∷ 0x0C ∷ 0x00 ∷ 0x80 ∷ 0x00 ∷ 0x01 ∷ 0x19 ∷ 85 ∷ []

abbrev request : ConfirmedServiceRequest → ℕ → ConfirmedRequest
request service id = record {
  segmented_accepted = false;
  more_follows = false;
  segmented_response_accepted = true;
  max_segments = MaxSegments.unspecified;
  max_response = 480;
  invoke_id = id;
  sequence_number = none;
  proposed_window = none;
  service = service;
}

abbrev reading : ObjectId → ConfirmedRequest
reading oid =
    request
      (ConfirmedServiceRequest.read_property (record {
        object_id = oid;
        property_id = PropertyIdentifier.present_value;
        array_index = none;
      }))
      9

abbrev inbound : InboundFrame
inbound = record { src = station_3; npdu = 0x01 ∷ 0x00 ∷ read_value_1 }

abbrev local_npdu : Npdu
local_npdu = record {
  version = 1;
  control = record {
    network_message = false;
    destination_specifier = false;
    source_specifier = false;
    expecting_reply = false;
    priority = 0;
  };
  destination = none;
  source = none;
  hop_count = none;
  apdu = read_value_1;
}

read_is_answered :
    Gives
      (λ done. IsReply (reading value_1) station_3 done.1)
      (handle_frame values hash as_it_is one_device inbound 0)
unfolding decode_npdu decode_specifier decode_control decode_hop_count decode_confirmed
    decode_service decode_read_property decode_ctx_object_id decode_lvt_len be32_at object_id_of_raw
    decode_ctx_property_id decode_ctx_u32 read_uint decode_optional has_context_tag from_u32
    first_arm from_u16 resolve_device route_to target_of is_device lookup first_device
read_is_answered =
    handle_frame-answers values hash values-IsCalm as_it_is one_device one_device inbound local_npdu
      0x00 (drop 1 read_value_1) (reading value_1) 7 0 refl refl refl refl refl refl

abbrev device_7 : ObjectId
device_7 = record { object_type = ObjectType.device; instance = 7 }

abbrev subscription : SubscribeCovRequest
subscription = record {
  subscriber_process_id = 1;
  monitored_object = value_1;
  issue_confirmed = some true;
  lifetime = none;
}

abbrev subscribing : ConfirmedRequest
subscribing = request (ConfirmedServiceRequest.subscribe_cov subscription) 10

-- The schedule's object is one value, which is written to another.
abbrev output : ScheduleOutput
output = record {
  schedule_device = 7;
  schedule_object = value_1;
  target_device = 7;
  target_object = record { object_type = ObjectType.analog_value; instance = 2 };
  target_property = PropertyIdentifier.present_value;
}

abbrev filled : Store.Store AnalogValue
filled = bulk_insert values hash Store.new three_values

two_outputs_drive :
    (after : Store.Store AnalogValue) × (tick values hash (output ∷ output ∷ []) filled 0
      ≡ ok after)
    × DrivesAll values hash 0 (output ∷ output ∷ []) filled after
unfolding Store.new bulk_insert Store.bucketed Store.insert_buckets Store.insert_items Store.modify
    Store.shard_key Store.object_key as_u16 AnalogValue.new
two_outputs_drive = tick-DrivesAll values hash 0 values-IsCalm (output ∷ output ∷ []) filled refl
