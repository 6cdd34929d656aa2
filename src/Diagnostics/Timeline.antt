-- ===== src/Diagnostics/Timeline.antt =====
-- src/edgesentinel/diagnostics/timeline.py: the durable copy of the events and its queries. Times are
-- numbers that compare as their ISO texts do; metadata is stored as the text that `json.dumps` makes of it.
use edge_sentinel.Persistence.Database
use edge_sentinel.Prelude.{
  Bool, List, Option, String, [], if◌then◌else◌, leb, map, none, some, take, ℕ, ◌∷◌,
}
use edge_sentinel.Core.Errors.{type_error}
use edge_sentinel.Core.Effects.{Action, pure, raise, ◌>>=◌}
use edge_sentinel.Core.Events.{Event, Severity, Value, critical, error, info, warning}
use edge_sentinel.Durability.Journal.{Holds, Json, on_db}
use edge_sentinel.Persistence.Database.{Database, EventFilter, EventRow}

-- `_SEVERITY_RANK`.
abbrev pub severity_rank : Severity → ℕ
severity_rank info = 0
severity_rank warning = 1
severity_rank error = 2
severity_rank critical = 3

-- `_SEVERITY_SCAN_LIMIT`.
abbrev severity_scan_limit : ℕ
severity_scan_limit = 2000

-- An event's metadata.
abbrev pub Metadata : Type 0
Metadata = List (String × Value)

-- `_row_to_event`. `loads` is `json.loads` of a text that `json.dumps` wrote, since `_on_event` alone
-- fills the table.
abbrev pub row_to_event : (String → Metadata) → EventRow → Event
row_to_event loads row = record {
  type = row.type;
  component = row.component;
  severity = row.severity;
  timestamp = row.timestamp;
  metadata = loads row.metadata;
}

-- The arguments of `insert_event`, with the text of the metadata.
abbrev pub event_to_row : String → Event → EventRow
event_to_row metadata e = record {
  type = e.type;
  component = e.component;
  severity = e.severity;
  timestamp = e.timestamp;
  metadata = metadata;
}

abbrev keep_at : ℕ → List Event → List Event
keep_at threshold [] = []
keep_at threshold (e ∷ es) =
    if leb threshold (severity_rank e.severity)
    then e ∷ keep_at threshold es
    else keep_at threshold es

abbrev pub rows_limit : Option Severity → ℕ → ℕ
rows_limit none limit = limit
rows_limit (some s) limit = severity_scan_limit

abbrev pub filtered : Option Severity → ℕ → List Event → List Event
filtered none limit events = events
filtered (some s) limit events = take limit (keep_at (severity_rank s) events)

module _ {S : Type 0} (holds : Holds S) where
  abbrev or_type_error : Option String → Action S String
  or_type_error none = raise type_error
  or_type_error (some metadata) = pure metadata

  -- `_on_event`. `json.dumps` raises TypeError on metadata that it cannot encode.
  unfoldable pub on_event : Json Metadata → Event → Action S Unit
  on_event json e = do
    metadata ← or_type_error (json.dumps e.metadata)
    on_db holds (Database.insert_event (event_to_row metadata e))

  unfoldable pub query :
      (String → Metadata) → EventFilter → Option Severity → ℕ → Bool → Action S (List Event)
  query loads f min_severity limit newest_first = do
    rows ← on_db holds (Database.load_events f (rows_limit min_severity limit) newest_first)
    pure (filtered min_severity limit (map (row_to_event loads) rows))

  unfoldable prune_older_than : ℕ → Action S ℕ
  prune_older_than older_than = on_db holds (Database.prune_events_older_than older_than)
