-- ===== src/Core/Events.antt =====
-- src/edgesentinel/core/events.py: events and the bus that delivers them.
pub mod Delivery
pub mod Laws
use edge_sentinel.Prelude.{
  Bool, List, Option, String, [], if◌then◌else◌, none, some, ℕ, ◌++◌, ◌==◌, ◌∷◌,
}
use edge_sentinel.Core.States.{RuntimeState}
use edge_sentinel.Core.Effects.{Action, Result, ok}
use edge_sentinel.Prelude.Int.{ℤ}

pub data Severity : Type 0 where
  info warning error critical : Severity

-- The values of an event's metadata: those that the package puts there, and any other object, by its
-- `repr`.
pub data Value : Type 0 where
  null : Value
  text : String → Value
  number : ℕ → Value
  signed : ℤ → Value
  flag : Bool → Value
  object : String → Value

pub record Event : Type 0 where
  pub type : String
  pub component : String
  pub severity : Severity
  pub timestamp : ℕ
  pub metadata : List (String × Value)

pub record StateChangeEvent : Type 0 where
  pub previous : RuntimeState
  pub current : RuntimeState
  pub timestamp : ℕ

-- A handler is known to the bus by its identity, a number.
pub record EventBus : Type 0 where
  pub handlers : List ℕ

unfoldable pub subscribe : ℕ → EventBus → EventBus
subscribe handler bus = record { handlers = bus.handlers ++ (handler ∷ []) }

-- `list.remove`: the first occurrence.
abbrev pub remove : ℕ → List ℕ → List ℕ
remove handler [] = []
remove handler (h ∷ hs) = if h == handler then hs else h ∷ remove handler hs

unfoldable pub unsubscribe : ℕ → EventBus → EventBus
unsubscribe handler bus = record { handlers = remove handler bus.handlers }

-- What a handler does to the world that it reaches, with what it raises.
module _ {W : Type 0} (run : ℕ → Event → Action W Unit) where
  -- `gather(..., return_exceptions=True)`: the results in the order of the handlers.
  pub gather : List ℕ → Event → W → List (Result Unit) × W
  gather [] event w = ([], w)
  gather (h ∷ hs) event w =
      let (r, w') = run h event w in let (rs, w'') = gather hs event w' in (r ∷ rs, w'')

  -- The results that are exceptions are only logged.
  unfoldable pub publish : EventBus → Event → W → W
  unfolding gather
  publish bus event w = (gather bus.handlers event w).1

-- How a component reaches the bus that it was given.
pub record Bus (W : Type 0) : Type 0 where
  pub utcnow : W → ℕ
  pub deliver : Event → W → W

-- `if self._events is not None: await self._events.publish(Event(...))`.
abbrev pub emit :
    {W : Type 0}
    → Option (Bus W)
    → String
    → String
    → Severity
    → List (String × Value)
    → Action W Unit
emit none type component severity metadata w = (ok tt, w)
emit (some bus) type component severity metadata w = (
  ok tt,
  bus.deliver
      (record {
        type = type;
        component = component;
        severity = severity;
        timestamp = bus.utcnow w;
        metadata = metadata;
      })
      w,
)
