-- ===== src/Process.antt =====
-- src/edgesentinel/process: the supervisor of a task and the watchdog of heartbeats.
pub mod Watchdog
pub mod Supervisor
