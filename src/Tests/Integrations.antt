-- ===== src/Tests/Integrations.antt =====
-- A publisher whose client writes down what it was asked.
use edge_sentinel.Integrations.Mqtt
use edge_sentinel.Prelude.{List, String, [], false, none, refl, some, true, ◌∷◌, ◌≡◌}
use edge_sentinel.Core.Errors.{runtime_error}
use edge_sentinel.Core.Effects.{err, ok}
use edge_sentinel.Core.Events.{Event, Severity}
use edge_sentinel.Integrations.Subscription.History.{attachment_history, count, others, without}
use edge_sentinel.Integrations.Mqtt.Forwarding.{publishes_after_disconnect}
use edge_sentinel.Integrations.Subscription.{
  Encoding, attaches, detaches, event_payload, is_filtered, moves, subscribes,
}
use edge_sentinel.Integrations.Mqtt.{MqttClient, MqttPublisher, Session, default_topic}

abbrev alarm : Event
alarm = record {
  type = "task_crashed";
  component = "process";
  severity = Severity.error;
  timestamp = 7;
  metadata = [];
}

abbrev plain_text : Encoding
plain_text = record { dumps = λ fields. ok "{}"; isoformat = λ t. "now" }

attachment_history_example :
    (count 9 (4 ∷ 5 ∷ 9 ∷ []) ≡ 1) × (without 9 (4 ∷ 5 ∷ 9 ∷ []) ≡ 4 ∷ 5 ∷ [])
unfolding moves others
attachment_history_example =
    attachment_history 9
      (attaches ∷ subscribes 4 ∷ attaches ∷ detaches ∷ subscribes 5 ∷ attaches ∷ [])
      (record { handlers = [] }) refl (tt, ((λ e. cc), (tt, (tt, ((λ e. cc), (tt, tt))))))

abbrev recorder : MqttClient (List String)
recorder = record {
  connect = λ host port w. (ok tt, "connect" ∷ w);
  loop_start = λ w. (ok tt, "loop_start" ∷ w);
  loop_stop = λ w. (ok tt, "loop_stop" ∷ w);
  disconnect = λ w. (ok tt, "disconnect" ∷ w);
  publish = λ topic payload qos w. (ok tt, topic ∷ w);
}

abbrev broker : MqttPublisher (List String)
broker = record {
  host = "broker.local";
  port = 1883;
  topic = default_topic "edgesentinel";
  qos = 0;
  min_severity = none;
  encoding = plain_text;
  build_default_client = err runtime_error;
}

abbrev session : Session (List String)
session = record { client = some recorder; connected = true; world = [] }

publishes_after_disconnect_example :
    ((Mqtt.disconnect broker session).1.connected ≡ false)
    × ((Mqtt.on_event broker alarm (Mqtt.disconnect broker session).1).1.world
        ≡ "edgesentinel/process/task_crashed" ∷ "disconnect" ∷ "loop_stop" ∷ [])
unfolding is_filtered event_payload default_topic
publishes_after_disconnect_example =
    publishes_after_disconnect broker alarm session recorder "edgesentinel/process/task_crashed"
      "{}" refl refl refl refl refl refl refl
