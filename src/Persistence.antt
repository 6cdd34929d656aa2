-- ===== src/Persistence.antt =====
-- src/edgesentinel/persistence: the local SQLite database.
pub mod Migrations
pub mod Connection
pub mod Database
pub mod Breakers
