-- ===== src/Objects.antt =====
-- crates/bacnet-object/src: the objects that a device holds.
pub mod Interface
pub mod Store
pub mod AnalogInput
pub mod AnalogValue
pub mod BinaryInput
pub mod BinaryValue
pub mod BinaryOutput
pub mod MultiState
pub mod NotificationClass
pub mod Schedule
pub mod Calendar
pub mod Device
pub mod AnyObject
pub mod TrendLog
pub mod AnalogOutput
