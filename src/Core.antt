-- ===== src/Core.antt =====
-- src/edgesentinel/core: states, errors, events and the lifecycle.
pub mod States
pub mod Errors
pub mod Effects
pub mod Events
pub mod Hooks
pub mod Lifecycle
