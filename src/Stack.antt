-- ===== src/Stack.antt =====
-- crates/bacnet-stack/src: routing and services.
pub mod Router
pub mod Addresses
pub mod Services
pub mod Dispatcher
