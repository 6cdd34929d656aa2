-- ===== src/Durability.antt =====
-- src/edgesentinel/durability: the journal of intents, durable operations and their replay.
pub mod Journal
pub mod Ahead
pub mod Operations
