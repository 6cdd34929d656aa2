-- ===== src/Persistence/Migrations.antt =====
-- src/edgesentinel/persistence/migrations.py: the schema's versions. The SQL text of a migration is
-- named by the tables that it creates.
use edge_sentinel.Prelude.{List, String, [], ℕ, ◌∷◌}

pub data Table : Type 0 where
  runtime_state_table circuit_breaker_state_table intents_table events_table : Table

pub record Migration : Type 0 where
  pub version : ℕ
  pub name : String
  pub creates : Table

-- `MIGRATIONS`.
abbrev pub migrations : List Migration
migrations =
    record { version = 1; name = "initial_schema"; creates = runtime_state_table }
    ∷ record { version = 2; name = "circuit_breaker_state"; creates = circuit_breaker_state_table }
    ∷ record { version = 3; name = "intents"; creates = intents_table }
    ∷ record { version = 4; name = "events"; creates = events_table }
    ∷ []

abbrev last_version : List Migration → ℕ
last_version [] = 0
last_version (m ∷ []) = m.version
last_version (m ∷ n ∷ rest) = last_version (n ∷ rest)

-- `CURRENT_SCHEMA_VERSION`.
unfoldable current_schema_version : ℕ
current_schema_version = last_version migrations
