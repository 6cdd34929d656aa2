-- ===== src/Resilience.antt =====
-- src/edgesentinel/resilience: backoff, retries, timeouts, circuit breakers and their composition.
pub mod Backoff
pub mod Retry
pub mod Breaker
pub mod Policy
