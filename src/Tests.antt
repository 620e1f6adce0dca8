-- ===== src/Tests.antt =====
-- Test data, and the theorems at concrete inputs.
pub mod Inputs
pub mod Messages
pub mod Sessions
pub mod Device
pub mod Names
pub mod Packets
pub mod Client
pub mod Exchanges
pub mod Labels
