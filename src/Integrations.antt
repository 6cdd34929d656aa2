-- ===== src/Integrations.antt =====
-- src/edgesentinel/integrations: the publishers that forward the bus's events.
pub mod Subscription
pub mod Http
pub mod Mqtt
