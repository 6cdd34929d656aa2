-- ===== src/Cli/Reading.antt =====
-- The commands only read.
use edge_sentinel.Cli
use edge_sentinel.Persistence.Database
use edge_sentinel.Diagnostics.Timeline
use edge_sentinel.Prelude.{
  Bool, Bool-cases, Option, String, [], ap, by_cases, false, if_false, if_true, if◌then◌else◌, inl,
  inr, map, none, not, refl, some, str_eq, true, ℕ, ◌+++◌, ◌++◌, ◌∙◌, ◌∷◌, ◌≡◌,
}
use edge_sentinel.Core.States.{RuntimeState, state_value}
use edge_sentinel.Core.Effects.{Action, Result, lift, ok, pure, ◌>>◌}
use edge_sentinel.Core.Events.{Severity}
use edge_sentinel.Cli.{
  Arguments, Terminal, dispatch, incident_replay_limit, print, run_command, terminal_database,
}
use edge_sentinel.Durability.Journal.{on_db}
use edge_sentinel.Diagnostics.Timeline.{filtered, row_to_event, rows_limit}
use edge_sentinel.Diagnostics.Incidents.{build_incidents}
use edge_sentinel.Diagnostics.Report.{
  Formats, format_incidents, format_timeline, summarize_incidents,
}
use edge_sentinel.Persistence.Database.{Database, EventFilter, load_events}
use edge_sentinel.Core.Effects.Keeps.{Keeps, Keeps-bind, Keeps-if, Keeps-pure}

-- A terminal on that database.
abbrev On : Database → Terminal → Type 0
On d t = t.database ≡ d

print-Keeps : (d : Database) (line : String) → Keeps (On d) (print line)
print-Keeps d line = record { at = λ t p. p }

-- A read of the database.
reads-Keeps :
    {A : Type 0} (d : Database) (m : Action Database A)
    → ((e : Database) → (m e).1 ≡ e)
    → Keeps (On d) (on_db terminal_database m)
reads-Keeps d m h = record { at = λ t p. h t.database ∙ p }

query-reads :
    (f : EventFilter) (limit : ℕ) (newest : Bool) (e : Database)
    → (load_events f limit newest e).1 ≡ e
unfolding load_events
query-reads f limit newest e = elim (Bool-cases e.connected) [
  | inl up ↦ rw up refl
  | inr down ↦ rw down refl
]

state-reads : (e : Database) → (Database.load_runtime_state e).1 ≡ e
unfolding Database.load_runtime_state
state-reads e = elim (Bool-cases e.connected) [ inl up ↦ rw up refl | inr down ↦ rw down refl ]

module _ (formats : Formats) (updated_at : Database → String) (d : Database) where
  query-Keeps :
      (f : EventFilter) (m : Option Severity) (limit : ℕ) (newest : Bool)
      → Keeps (On d) (Timeline.query terminal_database formats.loads f m limit newest)
  unfolding Timeline.query
  query-Keeps f m limit newest =
      Keeps-bind (on_db terminal_database (load_events f (rows_limit m limit) newest))
        (λ rows. pure (filtered m limit (map (row_to_event formats.loads) rows)))
        (reads-Keeps d (load_events f (rows_limit m limit) newest)
          (query-reads f (rows_limit m limit) newest))
        (λ rows. Keeps-pure (ok (filtered m limit (map (row_to_event formats.loads) rows))))

  printing-Keeps : (line : String) → Keeps {A = ℕ} (On d) (print line >> pure 0)
  printing-Keeps line =
      Keeps-bind (print line) (λ _. pure 0) (print-Keeps d line) (λ _. Keeps-pure (ok 0))

  timeline-Keeps : (args : Arguments) → Keeps (On d) (Cli.cmd_timeline formats updated_at args)
  unfolding Cli.cmd_timeline
  timeline-Keeps args = Keeps-bind (lift (Cli.severity_of args.min_severity)) _ (Keeps-pure _) (λ m.
      Keeps-bind
        (Timeline.query terminal_database formats.loads
          (record { component = args.component; type = args.type; since = none; until = none }) m
          args.limit (not args.oldest_first))
        _ (query-Keeps _ m args.limit (not args.oldest_first))
        (λ events. printing-Keeps (format_timeline formats events)))

  status-Keeps : Keeps (On d) (Cli.cmd_status formats updated_at)
  unfolding Cli.cmd_status
  status-Keeps =
      Keeps-bind (on_db terminal_database Database.load_runtime_state) _
        (reads-Keeps d Database.load_runtime_state state-reads)
        (λ row. Keeps-bind _ (λ _. pure 0) (shown row) (λ _. Keeps-pure (ok 0)))
    where
      shown :
          (row : Option (String × RuntimeState))
          → Keeps {A = Unit} (On d) (elim row [
            | none ↦ print "no runtime state recorded yet"
            | some (name, state) ↦ (λ t.
                print
                  (name
                    +++ ": "
                    +++ state_value state
                    +++ " (as of "
                    +++ updated_at t.database
                    +++ ")")
                  t)
          ])
      shown none = print-Keeps d "no runtime state recorded yet"
      shown (some (name, state)) = record { at = λ t p. p }

  incidents-Keeps : Keeps (On d) (Cli.cmd_incidents formats updated_at)
  unfolding Cli.cmd_incidents
  incidents-Keeps =
      Keeps-bind (Timeline.query terminal_database formats.loads _ none incident_replay_limit false)
        _ (query-Keeps _ none incident_replay_limit false)
        (λ events. Keeps-bind (lift (build_incidents events)) _ (Keeps-pure _) (λ incidents.
          Keeps-bind (print (format_incidents formats incidents)) _ (print-Keeps d _) (λ _.
            Keeps-bind (print "") _ (print-Keeps d "")
              (λ _. printing-Keeps (summarize_incidents formats incidents)))))

  run_command-Keeps : (args : Arguments) → Keeps (On d) (run_command formats updated_at args)
  unfolding run_command
  run_command-Keeps args = Keeps-if (str_eq args.command "status") _ _ status-Keeps (
      Keeps-if (str_eq args.command "timeline") _ _ (timeline-Keeps args)
        (Keeps-if (str_eq args.command "incidents") _ _ incidents-Keeps (Keeps-pure _)))

module _ (formats : Formats) (updated_at : Database → String) (path : String) (args : Arguments)
    (t : Terminal) where
  -- The terminal with its database open.
  abbrev pub opened : Terminal
  opened = record {
    exists = t.exists;
    database = record (t.database) { connected = true };
    out = t.out;
    errors = t.errors;
  }

  -- The terminal once the command has run and its database is closed.
  abbrev closed_ : Result ℕ × Terminal
  closed_ =
      let (r, u) = run_command formats updated_at args opened in
      (
        r,
        record {
          exists = u.exists;
          database = record (u.database) { connected = false };
          out = u.out;
          errors = u.errors;
        },
      )

  dispatch_runs : t.exists ≡ true → dispatch formats updated_at path args t ≡ closed_
  unfolding dispatch Database.connect Database.close
  dispatch_runs here = if_false (not t.exists) _ _ (ap not here)

  -- A command without a database prints where it was looked for, returns 1 and does nothing else. On a
  -- database it is run once it is open; whether it returns or raises, its outcome is passed on, and the
  -- database is closed again, with all that it holds unchanged.
  pub dispatch_outcome :
      if t.exists
      then ((dispatch formats updated_at path args t).0
          ≡ (run_command formats updated_at args opened).0)
        × ((dispatch formats updated_at path args t).1.database
            ≡ record (t.database) { connected = false })
        × ((dispatch formats updated_at path args t).1.out
            ≡ (run_command formats updated_at args opened).1.out)
      else dispatch formats updated_at path args t ≡ (
        ok 1,
        record {
          exists = t.exists;
          database = t.database;
          out = t.out;
          errors = t.errors ++ (("error: no database found at " +++ path) ∷ []);
        },
      )
  unfolding dispatch
  dispatch_outcome =
      by_cases t.exists _ _
        (λ here.
          let all = dispatch_runs here in
          let same = (run_command-Keeps formats updated_at opened.database args).at opened refl in
          rw all (refl, ap (λ (d : Database). record d { connected = false }) same, refl))
        (λ missing. if_true (not t.exists) _ _ (ap not missing))
