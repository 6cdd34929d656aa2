-- ===== src/Persistence/Database.antt =====
-- src/edgesentinel/persistence/database.py. A table is the list of its rows in the order of their
-- rowid, a statement what SQLite documents of it. The lock makes each method one step.
pub mod Schema
use edge_sentinel.Prelude.{
  Bool, List, Option, String, [], false, if◌then◌else◌, leb, length, ltb, none, not, reverse, some,
  str_eq, take, true, ℕ, ◌&&◌, ◌++◌, ◌==◌, ◌||◌, ◌∷◌,
}
use edge_sentinel.Core.States.{RuntimeState}
use edge_sentinel.Core.Errors.{database_error, runtime_error}
use edge_sentinel.Core.Effects.{Action, err, ok}
use edge_sentinel.Core.Events.{Severity}
use edge_sentinel.Persistence.Migrations.{
  Migration, Table, circuit_breaker_state_table, events_table, intents_table, migrations,
  runtime_state_table,
}
use edge_sentinel.Resilience.Breaker.{Saved}

-- `IntentStatus` of src/edgesentinel/durability/journal.py, whose values the column holds.
pub data IntentStatus : Type 0 where
  pending in_progress completed failed_ : IntentStatus

pub record IntentRow : Type 0 where
  pub id : String
  pub operation : String
  pub payload : String
  pub status : IntentStatus
  pub attempts : ℕ
  pub last_error : Option String
  pub created_at : ℕ
  pub updated_at : ℕ

pub record EventRow : Type 0 where
  pub type : String
  pub component : String
  pub severity : Severity
  pub timestamp : ℕ
  pub metadata : String

-- The file, the connection, and the clock behind `datetime('now')`.
pub record Database : Type 0 where
  pub connected : Bool
  pub now : ℕ
  pub applied : List (ℕ × String)
  pub tables : List Table
  pub runtime_state : Option (String × RuntimeState)
  pub breakers : List (String × Saved)
  pub intents : List IntentRow
  pub events : List EventRow

-- `connect` on a file that opens, and `close`.
unfoldable pub connect : Action Database Unit
connect d = (ok tt, record d { connected = true })

unfoldable pub close : Action Database Unit
close d = (ok tt, record d { connected = false })

-- `_require_conn`, before each statement.
abbrev pub with_conn : {A : Type 0} → Action Database A → Action Database A
with_conn m d = if d.connected then m d else (err runtime_error, d)

-- The loop of `_migrate`: `executescript`, then the row of the tracking table.
abbrev pub is_applied : ℕ → List (ℕ × String) → Bool
is_applied v [] = false
is_applied v ((u, name) ∷ rest) = v == u || is_applied v rest

abbrev has_table : Table → List Table → Bool
has_table t [] = false
has_table runtime_state_table (runtime_state_table ∷ ts) = true
has_table circuit_breaker_state_table (circuit_breaker_state_table ∷ ts) = true
has_table intents_table (intents_table ∷ ts) = true
has_table events_table (events_table ∷ ts) = true
has_table t (u ∷ ts) = has_table t ts

-- `CREATE TABLE IF NOT EXISTS`.
abbrev pub create_table : Table → Database → Database
create_table t d = record d { tables = if has_table t d.tables then d.tables else t ∷ d.tables }

pub apply_migrations : List (ℕ × String) → List Migration → Database → Database
apply_migrations seen [] d = d
apply_migrations seen (m ∷ ms) d = apply_migrations seen ms (
    if is_applied m.version seen
    then d
    else record (create_table m.creates d) { applied = d.applied ++ ((m.version, m.name) ∷ []) })

unfoldable pub migrate : Action Database Unit
unfolding apply_migrations
migrate = with_conn (λ d. (ok tt, apply_migrations d.applied migrations d))

unfoldable pub save_runtime_state : String → RuntimeState → Action Database Unit
save_runtime_state name state =
    with_conn (λ d. (ok tt, record d { runtime_state = some (name, state) }))

unfoldable pub load_runtime_state : Action Database (Option (String × RuntimeState))
load_runtime_state = with_conn (λ d. (ok d.runtime_state, d))

-- The upsert on the primary key `name`.
abbrev pub upsert : String → Saved → List (String × Saved) → List (String × Saved)
upsert name saved [] = (name, saved) ∷ []
upsert name saved ((n, s) ∷ rest) =
    if str_eq n name then (n, saved) ∷ rest else (n, s) ∷ upsert name saved rest

abbrev pub find_saved : String → List (String × Saved) → Option Saved
find_saved name [] = none
find_saved name ((n, s) ∷ rest) = if str_eq n name then some s else find_saved name rest

unfoldable pub save_circuit_breaker_state : String → Saved → Action Database Unit
save_circuit_breaker_state name saved =
    with_conn (λ d. (ok tt, record d { breakers = upsert name saved d.breakers }))

unfoldable pub load_circuit_breaker_state : String → Action Database (Option Saved)
load_circuit_breaker_state name = with_conn (λ d. (ok (find_saved name d.breakers), d))

abbrev pub find_intent : String → List IntentRow → Option IntentRow
find_intent id [] = none
find_intent id (row ∷ rows) = if str_eq row.id id then some row else find_intent id rows

-- A duplicate of the primary key is an `IntegrityError`.
unfoldable pub insert_intent : String → String → String → Action Database Unit
insert_intent id operation payload = with_conn (λ d. elim (find_intent id d.intents) [
  | some row ↦ (err database_error, d)
  | none ↦ (
    ok tt,
    record d {
      intents =
          d.intents
          ++ (record {
            id = id;
            operation = operation;
            payload = payload;
            status = pending;
            attempts = 0;
            last_error = none;
            created_at = d.now;
            updated_at = d.now;
          }
              ∷ []);
    },
  )
])

abbrev pub set_intent : String → IntentStatus → ℕ → Option String → ℕ → IntentRow → IntentRow
set_intent id status attempts last_error now row =
    if str_eq row.id id
    then record row {
      status = status;
      attempts = attempts;
      last_error = last_error;
      updated_at = now;
    }
    else row

abbrev pub update_rows : (IntentRow → IntentRow) → List IntentRow → List IntentRow
update_rows f [] = []
update_rows f (row ∷ rows) = f row ∷ update_rows f rows

unfoldable pub update_intent : String → IntentStatus → ℕ → Option String → Action Database Unit
update_intent id status attempts last_error = with_conn (λ d. (
  ok tt,
  record d { intents = update_rows (set_intent id status attempts last_error d.now) d.intents },
))

unfoldable pub load_intent : String → Action Database (Option IntentRow)
load_intent id = with_conn (λ d. (ok (find_intent id d.intents), d))

abbrev pub keep_rows : (IntentRow → Bool) → List IntentRow → List IntentRow
keep_rows p [] = []
keep_rows p (row ∷ rows) = if p row then row ∷ keep_rows p rows else keep_rows p rows

-- `WHERE status IN ('pending', 'in_progress') ORDER BY rowid`, the one use of the method.
abbrev pub is_unfinished : IntentRow → Bool
is_unfinished row = elim row.status [ pending ↦ true | in_progress ↦ true | _ ↦ false ]

unfoldable pub load_unfinished_intents : Action Database (List IntentRow)
load_unfinished_intents = with_conn (λ d. (ok (keep_rows is_unfinished d.intents), d))

abbrev is_prunable : ℕ → IntentRow → Bool
is_prunable older_than row = elim row.status [
  | completed ↦ ltb row.updated_at older_than
  | _ ↦ false
]

unfoldable pub prune_completed_intents : ℕ → Action Database ℕ
prune_completed_intents older_than = with_conn (λ d. (
  ok (length (keep_rows (is_prunable older_than) d.intents)),
  record d { intents = keep_rows (λ row. not (is_prunable older_than row)) d.intents },
))

unfoldable pub insert_event : EventRow → Action Database Unit
insert_event row = with_conn (λ d. (ok tt, record d { events = d.events ++ (row ∷ []) }))

-- The filters of `load_events`, each where it is given.
pub record EventFilter : Type 0 where
  pub component : Option String
  pub type : Option String
  pub since : Option ℕ
  pub until : Option ℕ

abbrev pub admits : EventFilter → EventRow → Bool
admits f row =
    elim f.component [ none ↦ true | some c ↦ str_eq row.component c ]
    && elim f.type [ none ↦ true | some t ↦ str_eq row.type t ]
    && elim f.since [ none ↦ true | some t ↦ leb t row.timestamp ]
    && elim f.until [ none ↦ true | some t ↦ leb row.timestamp t ]

abbrev pub keep_events : (EventRow → Bool) → List EventRow → List EventRow
keep_events p [] = []
keep_events p (row ∷ rows) = if p row then row ∷ keep_events p rows else keep_events p rows

unfoldable pub load_events : EventFilter → ℕ → Bool → Action Database (List EventRow)
load_events f limit newest_first = with_conn (λ d.
    let rows = keep_events (admits f) d.events in
    (ok (take limit (if newest_first then reverse rows else rows)), d))

unfoldable pub prune_events_older_than : ℕ → Action Database ℕ
prune_events_older_than older_than = with_conn (λ d. (
  ok (length (keep_events (λ row. ltb row.timestamp older_than) d.events)),
  record d { events = keep_events (λ row. not (ltb row.timestamp older_than)) d.events },
))
