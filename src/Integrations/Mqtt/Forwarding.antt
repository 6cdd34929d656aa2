-- ===== src/Integrations/Mqtt/Forwarding.antt =====
-- What the MQTT publisher does to an event, before and after it is disconnected.
use edge_sentinel.Integrations.Mqtt
use edge_sentinel.Prelude.{String, ap, arith, false, refl, some, true, ◌∙◌, ◌≡◌}
use edge_sentinel.Core.Effects.{Action, catch, done, modify, ok, ◌>>◌}
use edge_sentinel.Core.Events.{Event}
use edge_sentinel.Integrations.Mqtt.{MqttClient, MqttPublisher, Session, outside, with_connected}
use edge_sentinel.Integrations.Subscription.{event_payload, is_filtered}
use edge_sentinel.Core.Effects.Laws.{bind-ok}

quiet_world : {W : Type 0} (m : Action W Unit) (w : W) → (catch m (λ e. done) w).1 ≡ (m w).1
quiet_world m w = ground arith

module _ {W : Type 0} (publisher : MqttPublisher W) (event : Event) where
  -- An event that is not filtered goes to the client that the publisher has.
  forwards :
      (s : Session W) (client : MqttClient W) (topic payload : String)
      → s.client ≡ some client
      → is_filtered publisher.min_severity event ≡ false
      → publisher.topic event ≡ ok topic
      → event_payload publisher.encoding event ≡ ok payload
      → (Mqtt.on_event publisher event s).1.world
        ≡ (client.publish topic payload publisher.qos s.world).1
  unfolding Mqtt.on_event Mqtt.send
  forwards s client topic payload c f t p =
      rw (f, c, t, p) (quiet_world (client.publish topic payload publisher.qos) s.world)

  -- The session that a disconnection leaves.
  abbrev gone : Session W → MqttClient W → Session W
  gone s client = record {
    client = some client;
    connected = false;
    world = (client.disconnect (client.loop_stop s.world).1).1;
  }

  disconnect_lem :
      (s : Session W) (client : MqttClient W)
      → s.client ≡ some client
      → s.connected ≡ true
      → (client.loop_stop s.world).0 ≡ ok tt
      → (client.disconnect (client.loop_stop s.world).1).0 ≡ ok tt
      → Mqtt.disconnect publisher s ≡ (ok tt, gone s client)
  unfolding Mqtt.disconnect
  disconnect_lem s client c up stops leaves =
      rw (up, c)
        (bind-ok (outside client.loop_stop)
            (λ _. outside client.disconnect >> modify (with_connected false)) s tt stops
          ∙ bind-ok (outside client.disconnect) (λ _. modify (with_connected false))
              (outside client.loop_stop s).1 tt leaves
          ∙ ap
              (λ k. (
                ok tt,
                record {
                  client = k;
                  connected = false;
                  world = (client.disconnect (client.loop_stop s.world).1).1;
                },
              ))
              c)

  -- A publisher that was connected and then disconnected, without an error, still publishes the events
  -- that it is given: to the client that it has disconnected.
  pub publishes_after_disconnect :
      (s : Session W) (client : MqttClient W) (topic payload : String)
      → s.client ≡ some client
      → s.connected ≡ true
      → (client.loop_stop s.world).0 ≡ ok tt
      → (client.disconnect (client.loop_stop s.world).1).0 ≡ ok tt
      → is_filtered publisher.min_severity event ≡ false
      → publisher.topic event ≡ ok topic
      → event_payload publisher.encoding event ≡ ok payload
      → ((Mqtt.disconnect publisher s).1.connected ≡ false)
        × ((Mqtt.on_event publisher event (Mqtt.disconnect publisher s).1).1.world
            ≡ (client.publish topic payload publisher.qos
                (client.disconnect (client.loop_stop s.world).1).1).1)
  publishes_after_disconnect s client topic payload c up stops leaves f t p =
      let left = disconnect_lem s client c up stops leaves in
      rw left (refl, forwards (gone s client) client topic payload refl f t p)
