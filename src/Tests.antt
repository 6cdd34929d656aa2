-- ===== src/Tests.antt =====
-- The theorems at concrete inputs.
pub mod Recordings
pub mod Storms
pub mod Rounds
pub mod Console
pub mod Connections
pub mod Integrations
pub mod Core
pub mod Resilience
pub mod Monitor
pub mod Process
pub mod Records
pub mod Starts
