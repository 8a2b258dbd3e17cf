-- ===== src/Encoding.antt =====
-- crates/bacnet-types/src/encoding: the tag-length-value encoding of values.
pub mod Tags
pub mod BitStrings
pub mod Asn1
pub mod Application
