-- ===== src/Tests/Recordings.antt =====
-- The timeline of a runtime between handlers of the application.
use edge_sentinel.Runtime
use edge_sentinel.Diagnostics.Timeline
use edge_sentinel.Prelude.{List, Option, String, [], none, refl, some, true, ℕ, ◌∷◌, ◌≡◌}
use edge_sentinel.Core.Errors.{application}
use edge_sentinel.Core.Effects.{err, ok}
use edge_sentinel.Core.Events.{Event, Severity, Value, flag, null, number, object, signed, text}
use edge_sentinel.Tests.Starts.{device, guard}
use edge_sentinel.Runtime.Recording.{
  any_event, published_is_recorded, unencodable_is_lost, with_event,
}
use edge_sentinel.Runtime.{Device, Sentinel, device_database}

-- A bus with the timeline's handler between two of the application's, which raise.
abbrev noisy : Sentinel ℕ String
noisy = record guard {
  app_handler = λ n e d. (err (application n), d);
  metadata_json = record { dumps = λ m. some "load: 97"; loads = λ s. ("load", number 97) ∷ [] };
}

abbrev recording : Device ℕ
recording = record device {
  bus = record { handlers = 5 ∷ 0 ∷ 7 ∷ [] };
  database = record (device.database) { connected = true };
}

abbrev overheated : Event
overheated = record {
  type = "hardware_metrics_high";
  component = "device";
  severity = Severity.warning;
  timestamp = 12;
  metadata = ("load", number 97) ∷ [];
}

published_is_recorded_example :
    (((Runtime.bus noisy).deliver overheated recording).database
      ≡ with_event "load: 97" overheated recording.database)
    × ((Timeline.query device_database noisy.metadata_json.loads any_event none 1 true
          ((Runtime.bus noisy).deliver overheated recording)).0
        ≡ ok (overheated ∷ []))
published_is_recorded_example =
    published_is_recorded noisy overheated (λ n e d. refl) "load: 97" refl refl recording refl refl

-- A `json.dumps` that fails on the first value that it cannot encode.
abbrev encode : List (String × Value) → Option String
encode [] = some "{}"
encode ((key, object repr) ∷ rest) = none
encode ((key, null) ∷ rest) = encode rest
encode ((key, text s) ∷ rest) = encode rest
encode ((key, number n) ∷ rest) = encode rest
encode ((key, signed n) ∷ rest) = encode rest
encode ((key, flag b) ∷ rest) = encode rest

abbrev strict : Sentinel ℕ String
strict = record noisy { metadata_json = record { dumps = encode; loads = λ s. [] } }

abbrev unencodable : Event
unencodable = record overheated { metadata = ("sensor", object "<Sensor>") ∷ [] }

unencodable_is_lost_example :
    ((Runtime.bus strict).deliver unencodable recording).database ≡ recording.database
unencodable_is_lost_example = unencodable_is_lost strict unencodable (λ n e d. refl) refl recording
