-- ===== src/Lib.antt =====
-- The simulator of BACnet devices: what its crates compute, as definitions, and what they guarantee.
--
-- The parts and the files that model them:
-- * crates/bacnet-types/src. Types holds the data: errors (Types/Error), the object types with their
--   codes (Types/ObjectType: `ObjectType as u16` is `as_u16`), the property identifiers
--   (Types/PropertyId: `from_u32`, `to_u32`), the values (Types/Value), the enumerations of
--   properties (Types/Enumerations), the float conversions (Types/Floats) and
--   the equality of identifiers (Types/Equality). Encoding holds
--   encoding/: the context tags (Encoding/Tags, for tags.rs), the application values
--   (Encoding/Application: `encode_property_value` of application.rs, `decode_application_value` of
--   tags.rs), the bit strings that both use (Encoding/BitStrings), and asn1.rs (Encoding/Asn1).
-- * crates/bacnet-codec/src. Codec has a file for each of bvll.rs, npdu.rs, mstp.rs, sc.rs,
--   apdu/segmentation.rs, apdu/unconfirmed.rs, apdu/confirmed.rs, apdu/ack.rs and apdu/error.rs
--   (Codec/Errors). A frame's encoder gives the list of its bytes; a decoder takes the buffer.
--   Codec/Optional and Codec/Identifiers have the fields that the requests share.
-- * crates/bacnet-object/src. Objects has a file for each kind of object: TrendLog, AnalogInput,
--   AnalogOutput, AnalogValue, BinaryInput, BinaryOutput, BinaryValue, MultiState, NotificationClass,
--   Schedule, and Device with the calendar of its clock in Calendar. An object's state is the record
--   of its fields, and `write_property` gives the new state. Objects/Interface is the trait of
--   property.rs as a record of operations, with `force_write_property` over it; Objects/AnyObject
--   puts the kinds together as one instance of it; Objects/Store is store.rs over any instance.
-- * crates/bacnet-sim-engine/src. Engine/Alarm is alarm_engine.rs: `evaluate` gives the new machine
--   and the notification. Engine/Cov is cov_engine.rs: `check_and_notify` gives the new subscriptions
--   and the notifications sent; Engine/Cov/Lives has the engine's operations one after the other, and
--   what they make of one subscription. Engine/Schedules is schedule_engine.rs, over the store of
--   Objects/Store.
-- * crates/bacnet-transport/src. Transport/MstpMaster is mstp/master.rs: `on_frame` is one turn of the
--   loop in `run`, and Transport/MstpMaster/Bus has the stations of a bus with the frames that each
--   has still to read, in any order of reading. Transport/ScHub is sc/hub.rs: `connect`, `on_message`
--   and `disconnect` are the steps of the task that serves a connection.
-- * crates/bacnet-stack/src. Stack/Router is router.rs, over the headers of Codec/Npdu.
--   Stack/Services is services/: each handler takes the store and gives the answer or, for a write,
--   the new store. Stack/Dispatcher is dispatcher.rs: `handle_frame` (Stack/Dispatcher/Handlers)
--   takes the dispatcher and a frame, over the decoders of Codec and the handlers of Stack/Services,
--   and gives the dispatcher afterwards and the frames sent. Stack/Addresses is the equality of
--   network addresses.
-- The child modules of a file have the proofs about it; Runs has the theorems at concrete inputs.
-- Prelude has the helpers: tests on numbers, lists with their length, fallible code, machine words,
-- reads of a buffer, maps, and the rules for what a fallible function ensures.
--
-- Conventions. A byte or a word is a natural number, with the wrap-around of a cast written out. An
-- `Outcome` is `ok`, `err` or `panic`: a slice or an index out of range panics, and so does a sum
-- that overflows its type, as in a build with overflow checks. Message texts are left out. A decoder
-- that moves a position returns the value and the new position. The clock's readings are arguments. A
-- float is its bit pattern; the arithmetic on floats and the lossy reading of UTF-8 are parameters. A
-- hash map is an association list with one entry for a key; the hash of the store is a parameter.
--
-- Bounds. Three loops have a bound on their rounds: those of the ReadPropertyMultiple decoder
-- (Codec/Confirmed) one more than the bytes of the body, since a round reads one byte at least, with
-- an exhausted bound answered as a panic; and the loop over the years of the device's date
-- (Objects/Calendar) one more than the days over 365. Every other loop is recursion on the list or
-- on the count that it goes through.
--
-- Not modelled: the value models and the scenarios of the simulation engine, which are arithmetic on
-- floats; sockets, asynchronous tasks and channels, apart from the order in which the stations of an
-- MS/TP bus read and the frames that wait in the hub's channels; locks, each operation on the store
-- being one critical section; the clients of BACnet/SC and BACnet/IP; the timeouts of a
-- ring and receivers that lag; the HTTP interface, the configuration and the start of the process,
-- which are input and output.
pub mod Codec
pub mod Encoding
pub mod Engine
pub mod Objects
pub mod Prelude
pub mod Runs
pub mod Stack
pub mod Transport
pub mod Types
