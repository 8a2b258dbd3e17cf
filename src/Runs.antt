-- ===== src/Runs.antt =====
-- The theorems at concrete inputs.
mod Frames
mod Hub
mod Values
mod Devices
mod Networks
mod Requests
mod Objects
mod Bodies
mod Services
mod Changes
