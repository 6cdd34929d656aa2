-- ===== src/Integrations/Mqtt.antt =====
-- src/edgesentinel/integrations/mqtt.py: events published to an MQTT broker. The client is a parameter.
pub mod Forwarding
use edge_sentinel.Prelude.{
  Bool, Option, String, false, if◌then◌else◌, none, not, some, true, ℕ, ◌+++◌,
}
use edge_sentinel.Core.Effects.{Action, Result, catch, done, err, lift, modify, ok, ◌>>=◌, ◌>>◌}
use edge_sentinel.Core.Events.{Event, Severity}
use edge_sentinel.Integrations.Subscription.{Encoding, event_payload, is_filtered}

-- `MqttClient`.
pub record MqttClient (W : Type 0) : Type 0 where
  pub connect : String → ℕ → Action W Unit
  pub loop_start : Action W Unit
  pub loop_stop : Action W Unit
  pub disconnect : Action W Unit
  pub publish : String → String → ℕ → Action W Unit

-- `_default_topic` and `_DEFAULT_TOPIC`.
unfoldable pub default_topic : String → Event → Result String
default_topic prefix event = ok (prefix +++ "/" +++ event.component +++ "/" +++ event.type)

-- The topic as it is given: none, one, or a function of the event.
data Topic : Type 0 where
  default : Topic
  fixed : String → Topic
  built : (Event → Result String) → Topic

-- The fields that do not change, with `_build_default_client`, which imports a package that may be
-- missing.
pub record MqttPublisher (W : Type 0) : Type 0 where
  pub host : String
  pub port : ℕ
  pub topic : Event → Result String
  pub qos : ℕ
  pub min_severity : Option Severity
  pub encoding : Encoding
  pub build_default_client : Result (MqttClient W)

-- The topic that `MqttPublisher.__init__` keeps.
unfoldable topic_builder : Topic → Event → Result String
unfolding default_topic
topic_builder default = default_topic "edgesentinel"
topic_builder (fixed t) = λ event. ok t
topic_builder (built f) = f

pub record Session (W : Type 0) : Type 0 where
  pub client : Option (MqttClient W)
  pub connected : Bool
  pub world : W

-- `MqttPublisher.__init__`.
unfoldable create :
    {W : Type 0} → MqttPublisher W → Topic → Option (MqttClient W) → W → MqttPublisher W × Session W
unfolding topic_builder
create args topic client world = (
  record args { topic = topic_builder topic },
  record { client = client; connected = false; world = world },
)

abbrev pub outside : {W A : Type 0} → Action W A → Action (Session W) A
outside m s =
    let (r, w) = m s.world in (r, record { client = s.client; connected = s.connected; world = w })

abbrev with_client : {W : Type 0} → MqttClient W → Session W → Session W
with_client client s = record { client = some client; connected = s.connected; world = s.world }

abbrev pub with_connected : {W : Type 0} → Bool → Session W → Session W
with_connected connected s = record { client = s.client; connected = connected; world = s.world }

module _ {W : Type 0} (publisher : MqttPublisher W) where
  -- `if self._client is None: self._client = _build_default_client()`.
  unfoldable need_client : Action (Session W) (MqttClient W)
  need_client s = elim s.client [
    | some client ↦ (ok client, s)
    | none ↦ elim publisher.build_default_client [
      | ok client ↦ (ok client, with_client client s)
      | err e ↦ (err e, s)
    ]
  ]

  unfoldable pub connect : Action (Session W) Unit
  unfolding need_client
  connect s =
      if s.connected
      then (ok tt, s)
      else (do
        client ← need_client
        outside (client.connect publisher.host publisher.port)
        outside client.loop_start
        modify (with_connected true))
          s

  unfoldable pub disconnect : Action (Session W) Unit
  disconnect s = if not s.connected then (ok tt, s) else elim s.client [
    | none ↦ (ok tt, s)
    | some client ↦
        (do outside client.loop_stop; outside client.disconnect; modify (with_connected false)) s
  ]

  -- The body of the `try` of `_on_event`.
  unfoldable pub send : MqttClient W → String → Event → Action W Unit
  unfolding event_payload
  send client topic event = do
    payload ← lift (event_payload publisher.encoding event)
    client.publish topic payload publisher.qos

  unfoldable pub on_event : Event → Action (Session W) Unit
  unfolding is_filtered send
  on_event event s =
      if is_filtered publisher.min_severity event then (ok tt, s) else elim s.client [
        | none ↦ (ok tt, s)
        | some client ↦
            (do
              topic ← lift (publisher.topic event)
              outside (catch (send client topic event) (λ e. done)))
              s
      ]
