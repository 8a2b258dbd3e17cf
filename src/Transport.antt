-- ===== src/Transport.antt =====
-- crates/bacnet-transport/src: the links that carry the frames.
pub mod MstpMaster
pub mod ScHub
