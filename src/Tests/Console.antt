-- ===== src/Tests/Console.antt =====
-- The command line on a database with one incident.
use edge_sentinel.Persistence.Database
use edge_sentinel.Prelude.{List, String, [], false, none, refl, some, true, ℕ, ◌∷◌, ◌≡◌}
use edge_sentinel.Core.States.{degraded, state_value}
use edge_sentinel.Core.Effects.{ok}
use edge_sentinel.Core.Events.{info, text}
use edge_sentinel.Cli.Replay.{incidents_outcome, oldest}
use edge_sentinel.Cli.Reading.{dispatch_outcome}
use edge_sentinel.Cli.{Arguments, Terminal, cmd_incidents, dispatch, run_command}
use edge_sentinel.Diagnostics.Incidents.{Incident, build_incidents, change, current_of, feed}
use edge_sentinel.Diagnostics.Report.{Formats, format_incidents, summarize_incidents}
use edge_sentinel.Persistence.Database.{Database}

abbrev went : String → ℕ → Database.EventRow
went state time = record {
  type = "state_change";
  component = "runtime";
  severity = info;
  timestamp = time;
  metadata = state;
}

abbrev recorded : Database
recorded = record {
  connected = true;
  now = 0;
  applied = [];
  tables = [];
  runtime_state = none;
  breakers = [];
  intents = [];
  events = went "degraded" 3 ∷ went "healthy" 9 ∷ [];
}

abbrev plain_formats : Formats
plain_formats = record {
  strftime = λ t. "t";
  span = λ d. "d";
  number = λ n. "n";
  loads = λ s. ("current", text s) ∷ [];
}

abbrev console : Terminal
console = record { exists = true; database = recorded; out = "$" ∷ []; errors = [] }

abbrev one_incident : List Incident
one_incident =
    record {
      started_at = 3;
      ended_at = some 9;
      states = degraded ∷ [];
      events = oldest plain_formats console;
    }
    ∷ []

incidents_outcome_example :
    ((cmd_incidents plain_formats (λ d. "now") console).0 ≡ ok 0)
    × ((cmd_incidents plain_formats (λ d. "now") console).1.out
        ≡ "$" ∷ "[resolved] t -> t (d): degraded" ∷ ""
          ∷ "n resolved incident(s), n ongoing, d total downtime" ∷ [])
unfolding build_incidents format_incidents summarize_incidents feed current_of change state_value
incidents_outcome_example =
    incidents_outcome plain_formats (λ d. "now") console one_incident refl refl

abbrev asked : Arguments
asked = record {
  command = "incidents";
  component = none;
  type = none;
  min_severity = none;
  limit = 50;
  oldest_first = false;
}

dispatch_outcome_example :
    ((dispatch plain_formats (λ d. "now") "data/gw.sqlite3" asked console).0
      ≡ (run_command plain_formats (λ d. "now") asked console).0)
    × ((dispatch plain_formats (λ d. "now") "data/gw.sqlite3" asked console).1.database
        ≡ record recorded { connected = false })
    × ((dispatch plain_formats (λ d. "now") "data/gw.sqlite3" asked console).1.out
        ≡ (run_command plain_formats (λ d. "now") asked console).1.out)
dispatch_outcome_example =
    dispatch_outcome plain_formats (λ d. "now") "data/gw.sqlite3" asked console
