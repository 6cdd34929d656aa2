-- ===== src/Cli/Replay.antt =====
-- Which incidents the command line shows.
use edge_sentinel.Diagnostics.Timeline
use edge_sentinel.Prelude.{
  List, String, [], ap, false, if_true, map, none, refl, take, true, ℕ, ◌++◌, ◌∙◌, ◌∷◌, ◌≡◌,
}
use edge_sentinel.Core.Effects.{Action, Result, lift, ok, pure, ◌>>=◌, ◌>>◌}
use edge_sentinel.Core.Events.{Event}
use edge_sentinel.Cli.{Terminal, cmd_incidents, incident_replay_limit, print, terminal_database}
use edge_sentinel.Diagnostics.Timeline.{filtered, row_to_event}
use edge_sentinel.Diagnostics.Incidents.{Incident, build_incidents, incidents}
use edge_sentinel.Diagnostics.Report.{Formats, format_incidents, summarize_incidents}
use edge_sentinel.Persistence.Database.{
  Database, EventFilter, EventRow, admits, keep_events, load_events,
}
use edge_sentinel.Core.Effects.Laws.{bind-ok}

append_three :
    (xs : List String) (a b c : String)
    → ((xs ++ (a ∷ [])) ++ (b ∷ [])) ++ (c ∷ []) ≡ xs ++ (a ∷ b ∷ c ∷ [])
append_three [] a b c = refl
append_three (x ∷ xs) a b c = ap (λ ys. x ∷ ys) (append_three xs a b c)

abbrev any_event : EventFilter
any_event = record { component = none; type = none; since = none; until = none }

keep-all : (rows : List EventRow) → keep_events (admits any_event) rows ≡ rows
keep-all [] = refl
keep-all (row ∷ rows) = ap (λ rs. row ∷ rs) (keep-all rows)

-- The oldest events of a database, as many as the command replays.
abbrev pub oldest : Formats → Terminal → List Event
oldest formats t = map (row_to_event formats.loads) (take incident_replay_limit t.database.events)

loads :
    (d : Database)
    → d.connected ≡ true
    → load_events any_event incident_replay_limit false d
      ≡ (ok (take incident_replay_limit d.events), d)
unfolding load_events
loads d up =
    if_true d.connected _ _ up
    ∙ ap (λ rows. (ok (take incident_replay_limit rows), d)) (keep-all d.events)

replays :
    (formats : Formats) (t : Terminal)
    → t.database.connected ≡ true
    → Timeline.query terminal_database formats.loads any_event none incident_replay_limit false t
      ≡ (ok (oldest formats t), t)
unfolding Timeline.query
replays formats t up =
    ap
      (λ (x : Result (List EventRow) × Database).
        ((λ u. (x.0, terminal_database.put x.1 u)) >>= (λ rows.
            pure (filtered none incident_replay_limit (map (row_to_event formats.loads) rows))))
          t)
      (loads t.database up)

module _ (formats : Formats) (updated_at : Database → String) (t : Terminal) where
  -- The command shows the incidents of the oldest 5000 events that are recorded, and their summary. What
  -- was recorded after those does not change what it prints.
  pub incidents_outcome :
      (incidents : List Incident)
      → t.database.connected ≡ true
      → build_incidents (oldest formats t) ≡ ok incidents
      → ((cmd_incidents formats updated_at t).0 ≡ ok 0)
        × ((cmd_incidents formats updated_at t).1.out
            ≡ t.out
              ++ (format_incidents formats incidents
                  ∷ ""
                  ∷ summarize_incidents formats incidents
                  ∷ []))
  unfolding cmd_incidents
  incidents_outcome incidents up built =
      let shown : List Incident → Action Terminal ℕ = λ incidents.
        print (format_incidents formats incidents)
        >> (print "" >> (print (summarize_incidents formats incidents) >> pure 0)) in
      let read = replays formats t up in
      let all =
        bind-ok
          (Timeline.query terminal_database formats.loads any_event none incident_replay_limit
            false)
          (λ events. lift (build_incidents events) >>= shown) t (oldest formats t)
          (ap (λ (x : Result (List Event) × Terminal). x.0) read)
        ∙ ap
            (λ (x : Result (List Event) × Terminal).
              (lift (build_incidents (oldest formats t)) >>= shown) x.1)
            read
        ∙ bind-ok (lift (build_incidents (oldest formats t))) shown t incidents built in
      rw all (refl, append_three t.out _ _ _)
