-- ===== src/Diagnostics/Incidents.antt =====
-- src/edgesentinel/diagnostics/incidents.py: spans of time outside HEALTHY, from a stream of events.
pub mod History
use mathlib.Core.Option
use edge_sentinel.Prelude.{
  Bool, List, Option, String, [], drop, false, if◌then◌else◌, length, ltb, none, not, some, str_eq,
  true, ℕ, ◌++◌, ◌-◌, ◌∷◌,
}
use edge_sentinel.Core.States.{
  RuntimeState, booting, degraded, failed, healthy, initializing, offline, recovering, state_mem,
  stopped, stopping,
}
use edge_sentinel.Core.Errors.{key_error, value_error}
use edge_sentinel.Core.Effects.{Action, Result, done, err, ok, ◌>>=◌, ◌>>◌}
use edge_sentinel.Core.Events.{Event, Value, text}
use edge_sentinel.Prelude.Int.{pos, ℤ, ◌-ℤ◌}

-- `_INCIDENT_STATES`.
abbrev pub incident_states : List RuntimeState
incident_states = degraded ∷ offline ∷ recovering ∷ failed ∷ []

pub record Incident : Type 0 where
  pub started_at : ℕ
  pub ended_at : Option ℕ
  pub states : List RuntimeState
  pub events : List Event

unfoldable pub is_open : Incident → Bool
is_open incident = elim incident.ended_at [ none ↦ true | some t ↦ false ]

unfoldable pub duration : Incident → Option ℤ
duration incident = elim incident.ended_at [
  | none ↦ none
  | some t ↦ some (pos t -ℤ pos incident.started_at)
]

-- `_OpenIncident`.
pub record OpenIncident : Type 0 where
  pub started_at : ℕ
  pub events : List Event
  pub states : List RuntimeState

unfoldable freeze : OpenIncident → Incident
freeze o = record {
  started_at = o.started_at;
  ended_at = none;
  states = o.states;
  events = o.events;
}

unfoldable pub close : OpenIncident → ℕ → Incident
close o ended_at = record {
  started_at = o.started_at;
  ended_at = some ended_at;
  states = o.states;
  events = o.events;
}

-- `_IncidentBuilder`.
pub record Builder : Type 0 where
  pub closed : List Incident
  pub open_ : Option OpenIncident

abbrev pub empty : Builder
empty = record { closed = []; open_ = none }

abbrev with_event : Event → OpenIncident → OpenIncident
with_event e o = record {
  started_at = o.started_at;
  events = o.events ++ (e ∷ []);
  states = o.states;
}

abbrev with_state : RuntimeState → OpenIncident → OpenIncident
with_state s o = record {
  started_at = o.started_at;
  events = o.events;
  states = o.states ++ (s ∷ []);
}

abbrev pub opened : Event → OpenIncident
opened e = record { started_at = e.timestamp; events = e ∷ []; states = [] }

-- The part of `feed` that follows a state change to `current`, the event being recorded.
unfoldable pub change : RuntimeState → Event → Builder → Builder
unfolding close
change current e b =
    if state_mem current incident_states
    then elim b.open_ [
      | none ↦ record { closed = b.closed; open_ = some (with_state current (opened e)) }
      | some o ↦ record { closed = b.closed; open_ = some (with_state current o) }
    ]
    else elim b.open_ [
      | none ↦ b
      | some o ↦ record { closed = b.closed ++ (close o e.timestamp ∷ []); open_ = none }
    ]

abbrev noted : Event → Builder → Builder
noted e b = elim b.open_ [
  | none ↦ b
  | some o ↦ record { closed = b.closed; open_ = some (with_event e o) }
]

-- `RuntimeState(event.metadata["current"])`: KeyError or ValueError where it is none.
abbrev parse_state : String → Option RuntimeState
parse_state s =
    if str_eq s "booting"
    then some booting
    else if str_eq s "initializing"
    then some initializing
    else if str_eq s "healthy"
    then some healthy
    else if str_eq s "degraded"
    then some degraded
    else if str_eq s "offline"
    then some offline
    else if str_eq s "recovering"
    then some recovering
    else if str_eq s "failed"
    then some failed
    else if str_eq s "stopping"
    then some stopping
    else if str_eq s "stopped"
    then some stopped
    else none

abbrev find_value : String → List (String × Value) → Option Value
find_value key [] = none
find_value key ((k, v) ∷ rest) = if str_eq k key then some v else find_value key rest

unfoldable pub current_of : Event → Result RuntimeState
current_of e = elim (find_value "current" e.metadata) [
  | none ↦ err key_error
  | some (text s) ↦ elim (parse_state s) [ none ↦ err value_error | some state ↦ ok state ]
  | some other ↦ err value_error
]

abbrev pub is_change : Event → Bool
is_change e = str_eq e.type "state_change"

-- `_IncidentBuilder.feed`. An open incident has the event before the metadata is read.
unfoldable pub feed : Event → Action Builder Unit
unfolding change
feed e b = if not (is_change e) then (ok tt, noted e b) else elim (current_of e) [
  | err x ↦ (err x, noted e b)
  | ok current ↦ (ok tt, change current e (noted e b))
]

unfoldable feed_all : List Event → Action Builder Unit
feed_all [] = done
feed_all (e ∷ es) = do feed e; feed_all es

unfoldable open_list : Option OpenIncident → List Incident
unfolding freeze
open_list none = []
open_list (some o) = freeze o ∷ []

-- `build_incidents`.
unfoldable pub build_incidents : List Event → Result (List Incident)
unfolding feed_all open_list
build_incidents events =
    let (r, b) = feed_all events empty in
    elim r [ ok u ↦ ok (b.closed ++ open_list b.open_) | err e ↦ err e ]

-- `IncidentTracker`, whose constructor wants a positive `max_history`.
pub record Tracker : Type 0 where
  pub max_history : ℕ
  pub builder : Builder
  pub attached : Bool

unfoldable pub create : ℕ → Result Tracker
create max_history =
    if ltb max_history 1
    then err value_error
    else ok (record { max_history = max_history; builder = empty; attached = false })

-- `del self._builder.closed[:overflow]`, if the overflow is positive.
abbrev pub bound : ℕ → Builder → Builder
bound max_history b = record {
  closed = drop (length b.closed - max_history) b.closed;
  open_ = b.open_;
}

-- `_on_event`.
unfoldable pub on_event : Event → Action Tracker Unit
unfolding feed
on_event e t =
    let (r, b) = feed e t.builder in
    elim r [
      | ok u ↦ (
        ok tt,
        record {
          max_history = t.max_history;
          builder = bound t.max_history b;
          attached = t.attached;
        },
      )
      | err x ↦ (err x, record { max_history = t.max_history; builder = b; attached = t.attached })
    ]

unfoldable open_incident : Tracker → Option Incident
unfolding freeze
open_incident t = Option.map freeze t.builder.open_

unfoldable pub incidents : Tracker → List Incident
incidents t = t.builder.closed
