-- ===== src/Diagnostics/Report.antt =====
-- src/edgesentinel/diagnostics/report.py: events and incidents as text.
use edge_sentinel.Prelude.{
  List, String, [], if◌then◌else◌, length, map, none, some, suc, zero, ℕ, ◌+++◌, ◌-◌, ◌∷◌,
}
use edge_sentinel.Core.States.{state_value}
use edge_sentinel.Core.Events.{Event, Severity, critical, error, info, warning}
use edge_sentinel.Diagnostics.Timeline.{Metadata}
use edge_sentinel.Diagnostics.Incidents.{Incident, duration, incidents, is_open}
use edge_sentinel.Prelude.Int.{pos, ℤ, ◌+ℤ◌, ◌-ℤ◌}

-- `strftime` with the report's format, and what `str` makes of a span of time and of a number;
-- and `json.loads` of the metadata that the timeline has stored.
pub record Formats : Type 0 where
  pub strftime : ℕ → String
  pub span : ℤ → String
  pub number : ℕ → String
  pub loads : String → Metadata

-- `f"{s:<n}"`, and `f"{s:>n}"` where the text is not longer.
abbrev text_length : String → ℕ
text_length String.[] = 0
text_length (String.◌∷◌ c s) = suc (text_length s)

abbrev blanks : ℕ → String
blanks zero = ""
blanks (suc n) = " " +++ blanks n

unfoldable ljust : ℕ → String → String
ljust n s = s +++ blanks (n - text_length s)

unfoldable rjust : ℕ → String → String
rjust n s = blanks (n - text_length s) +++ s

-- `severity.value.upper()`.
abbrev severity_upper : Severity → String
severity_upper info = "INFO"
severity_upper warning = "WARNING"
severity_upper error = "ERROR"
severity_upper critical = "CRITICAL"

-- `str.join`.
unfoldable join : String → List String → String
join sep [] = ""
join sep (s ∷ []) = s
join sep (s ∷ t ∷ rest) = s +++ sep +++ join sep (t ∷ rest)

abbrev pub ongoing : List Incident → List Incident
ongoing [] = []
ongoing (i ∷ rest) = if is_open i then i ∷ ongoing rest else ongoing rest

abbrev pub resolved : List Incident → List Incident
resolved [] = []
resolved (i ∷ rest) = if is_open i then resolved rest else i ∷ resolved rest

-- `sum(durations, start=timedelta())`, of the durations that there are.
abbrev total_of : List Incident → ℤ
total_of [] = pos 0
total_of (i ∷ rest) = elim (duration i) [ none ↦ total_of rest | some d ↦ d +ℤ total_of rest ]

module _ (formats : Formats) where
  unfoldable format_event : Event → String
  unfolding ljust
  format_event event =
      formats.strftime event.timestamp
      +++ "  "
      +++ ljust 8 (severity_upper event.severity)
      +++ " "
      +++ ljust 12 event.component
      +++ " "
      +++ event.type

  unfoldable pub format_timeline : List Event → String
  unfolding format_event join
  format_timeline [] = "(no events)"
  format_timeline (e ∷ es) = join "\n" (map format_event (e ∷ es))

  unfoldable format_incident : Incident → String
  unfolding rjust join duration
  format_incident incident =
      let started = formats.strftime incident.started_at in
      let states = join " -> " (map state_value incident.states) in
      elim incident.ended_at [
        | none ↦
            "[" +++ rjust 8 "ONGOING" +++ "] " +++ started +++ " -> (ongoing)" +++ ": " +++ states
        | some t ↦
            "["
            +++ rjust 8 "resolved"
            +++ "] "
            +++ started
            +++ " -> "
            +++ formats.strftime t
            +++ " ("
            +++ formats.span (pos t -ℤ pos incident.started_at)
            +++ ")"
            +++ ": "
            +++ states
      ]

  unfoldable pub format_incidents : List Incident → String
  unfolding format_incident join
  format_incidents [] = "(no incidents)"
  format_incidents (i ∷ is) = join "\n" (map format_incident (i ∷ is))

  unfoldable pub summarize_incidents : List Incident → String
  summarize_incidents incidents =
      formats.number (length (resolved incidents))
      +++ " resolved incident(s), "
      +++ formats.number (length incidents - length (resolved incidents))
      +++ " ongoing, "
      +++ formats.span (total_of (resolved incidents))
      +++ " total downtime"
