-- ===== src/Monitor.antt =====
-- The components that poll something and drive the runtime's lifecycle state.
pub mod Overridden
pub mod Probes
pub mod Watermark
pub mod Storage
pub mod Metrics
pub mod Checks
pub mod Network
