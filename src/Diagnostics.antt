-- ===== src/Diagnostics.antt =====
-- src/edgesentinel/diagnostics: the durable timeline and the incidents.
pub mod Incidents
pub mod Timeline
pub mod Report
