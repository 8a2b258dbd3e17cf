-- ===== src/Codec.antt =====
-- crates/bacnet-codec: the frames and protocol data units.
pub mod Bvll
pub mod Npdu
pub mod Mstp
pub mod Sc
pub mod Segmentation
pub mod Unconfirmed
pub mod Optional
pub mod Ack
pub mod Errors
pub mod Identifiers
pub mod Confirmed
