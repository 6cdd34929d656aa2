-- ===== src/Integrations/Subscription.antt =====
-- How a publisher attaches to a bus: `attach` and `detach`, the same in http.py and mqtt.py of
-- src/edgesentinel/integrations.
pub mod History
use edge_sentinel.Prelude.{
  Bool, List, Option, String, [], false, if◌then◌else◌, ltb, min, none, not, some, true, ℕ, ◌∷◌,
}
use edge_sentinel.Core.Effects.{Result}
use edge_sentinel.Core.Events.{
  Event, EventBus, Severity, Value, critical, error, info, subscribe, text, unsubscribe, warning,
}
use edge_sentinel.Diagnostics.Timeline.{severity_rank}

-- The publisher's `_handler`, if it is set the identity of its method `_on_event`, and a bus.
pub record Link : Type 0 where
  pub attached : Bool
  pub bus : EventBus

unfoldable pub attach : ℕ → Link → Link
unfolding subscribe
attach handler l =
    if l.attached then l else record { attached = true; bus = subscribe handler l.bus }

unfoldable pub detach : ℕ → Link → Link
unfolding unsubscribe
detach handler l =
    if not l.attached then l else record { attached = false; bus = unsubscribe handler l.bus }

-- `_event_payload` before it is dumped, and what a JSON value can be here.
pub data Field : Type 0 where
  plain : Value → Field
  object : List (String × Value) → Field

abbrev severity_value : Severity → String
severity_value info = "info"
severity_value warning = "warning"
severity_value error = "error"
severity_value critical = "critical"

-- `json.dumps`, which fails on what JSON cannot hold, and `isoformat`.
pub record Encoding : Type 0 where
  pub dumps : List (String × Field) → Result String
  pub isoformat : ℕ → String

unfoldable pub event_payload : Encoding → Event → Result String
event_payload encoding event = encoding.dumps (
    ("type", plain (text event.type))
    ∷ ("component", plain (text event.component))
    ∷ ("severity", plain (text (severity_value event.severity)))
    ∷ ("timestamp", plain (text (encoding.isoformat event.timestamp)))
    ∷ ("metadata", object event.metadata)
    ∷ [])

-- The test at the start of `_on_event`.
unfoldable pub is_filtered : Option Severity → Event → Bool
is_filtered none event = false
is_filtered (some min) event = ltb (severity_rank event.severity) (severity_rank min)

-- What happens to a publisher and a bus: its own calls, and those of others.
pub data Move : Type 0 where
  attaches detaches : Move
  subscribes unsubscribes : ℕ → Move

unfoldable pub move : ℕ → Move → Link → Link
unfolding attach detach subscribe unsubscribe
move handler attaches l = attach handler l
move handler detaches l = detach handler l
move handler (subscribes h) l = record { attached = l.attached; bus = subscribe h l.bus }
move handler (unsubscribes h) l = record { attached = l.attached; bus = unsubscribe h l.bus }

unfoldable pub moves : ℕ → List Move → Link → Link
unfolding move
moves handler [] l = l
moves handler (m ∷ ms) l = moves handler ms (move handler m l)
