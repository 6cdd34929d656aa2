-- ===== src/Cli.antt =====
-- src/edgesentinel/cli/main.py: the commands over a runtime's database. argparse and the event loop are
-- parameters, and `print` writes a list of texts.
pub mod Replay
pub mod Reading
use edge_sentinel.Persistence.Database
use edge_sentinel.Diagnostics.Timeline
use edge_sentinel.Prelude.{
  Bool, List, Option, String, [], false, if◌then◌else◌, none, not, refl, some, str_eq, ℕ, ◌+++◌,
  ◌++◌, ◌∷◌,
}
use edge_sentinel.Core.States.{state_value}
use edge_sentinel.Core.Errors.{assertion_error, value_error}
use edge_sentinel.Core.Effects.{Action, Result, err, finally, lift, ok, pure, raise, ◌>>=◌, ◌>>◌}
use edge_sentinel.Core.Events.{Severity, critical, error, info, warning}
use edge_sentinel.Durability.Journal.{Holds, on_db}
use edge_sentinel.Diagnostics.Incidents.{build_incidents, incidents}
use edge_sentinel.Diagnostics.Report.{
  Formats, format_incidents, format_timeline, summarize_incidents,
}
use edge_sentinel.Persistence.Database.{Database}

-- The terminal, and the directory of databases: the one that is asked for, if it is there.
pub record Terminal : Type 0 where
  pub exists : Bool
  pub database : Database
  pub out : List String
  pub errors : List String

-- What argparse makes of the arguments.
pub record Arguments : Type 0 where
  pub command : String
  pub component : Option String
  pub type : Option String
  pub min_severity : Option String
  pub limit : ℕ
  pub oldest_first : Bool

-- `_INCIDENT_REPLAY_LIMIT`.
abbrev pub incident_replay_limit : ℕ
incident_replay_limit = 5000

abbrev pub print : String → Action Terminal Unit
print line t = (
  ok tt,
  record {
    exists = t.exists;
    database = t.database;
    out = t.out ++ (line ∷ []);
    errors = t.errors;
  },
)

abbrev print_error : String → Action Terminal Unit
print_error line t = (
  ok tt,
  record {
    exists = t.exists;
    database = t.database;
    out = t.out;
    errors = t.errors ++ (line ∷ []);
  },
)

abbrev pub terminal_database : Holds Terminal
terminal_database = record {
  get = λ t. t.database;
  put = λ d t. record { exists = t.exists; database = d; out = t.out; errors = t.errors };
  get-put = λ d t. refl;
}

-- `Severity(args.min_severity) if args.min_severity else None`.
abbrev severity_of : Option String → Result (Option Severity)
severity_of none = ok none
severity_of (some s) =
    if str_eq s ""
    then ok none
    else if str_eq s "info"
    then ok (some info)
    else if str_eq s "warning"
    then ok (some warning)
    else if str_eq s "error"
    then ok (some error)
    else if str_eq s "critical"
    then ok (some critical)
    else err value_error

-- `updated_at` is the row's column of that name, which the database's model leaves out.
module _ (formats : Formats) (updated_at : Database → String) where
  unfoldable cmd_status : Action Terminal ℕ
  unfolding Database.load_runtime_state
  cmd_status = do
    row ← on_db terminal_database Database.load_runtime_state
    elim row [
      | none ↦ print "no runtime state recorded yet"
      | some (name, state) ↦ (λ t.
          print
            (name +++ ": " +++ state_value state +++ " (as of " +++ updated_at t.database +++ ")")
            t)
    ]
    pure 0

  unfoldable cmd_timeline : Arguments → Action Terminal ℕ
  unfolding Timeline.query format_timeline
  cmd_timeline args = do
    min_severity ← lift (severity_of args.min_severity)
    events ←
        Timeline.query terminal_database formats.loads
          (record { component = args.component; type = args.type; since = none; until = none })
          min_severity args.limit (not args.oldest_first)
    print (format_timeline formats events)
    pure 0

  unfoldable pub cmd_incidents : Action Terminal ℕ
  unfolding Timeline.query build_incidents format_incidents summarize_incidents
  cmd_incidents = do
    events ←
        Timeline.query terminal_database formats.loads
          (record { component = none; type = none; since = none; until = none }) none
          incident_replay_limit false
    incidents ← lift (build_incidents events)
    print (format_incidents formats incidents)
    print ""
    print (summarize_incidents formats incidents)
    pure 0

  -- The commands of `_dispatch`.
  unfoldable pub run_command : Arguments → Action Terminal ℕ
  unfolding cmd_status cmd_timeline cmd_incidents
  run_command args =
      if str_eq args.command "status"
      then cmd_status
      else if str_eq args.command "timeline"
      then cmd_timeline args
      else if str_eq args.command "incidents"
      then cmd_incidents
      else raise assertion_error

  -- `_dispatch`, with the path that the arguments name.
  unfoldable pub dispatch : String → Arguments → Action Terminal ℕ
  unfolding run_command Database.connect Database.close
  dispatch path args t =
      if not t.exists
      then (do print_error ("error: no database found at " +++ path); pure 1) t
      else (do
        on_db terminal_database Database.connect
        finally (run_command args) (on_db terminal_database Database.close))
          t

  -- `main`: `parse_args` exits on arguments that it does not take.
  unfoldable main : (List String → Result (String × Arguments)) → List String → Action Terminal ℕ
  unfolding dispatch
  main parse_args argv = do (path, args) ← lift (parse_args argv); dispatch path args
