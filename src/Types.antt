-- ===== src/Types.antt =====
-- crates/bacnet-types: errors, enumerations and the values of properties.
pub mod Error
pub mod ObjectType
pub mod PropertyId
pub mod Value
pub mod Equality
pub mod Floats
pub mod Enumerations
