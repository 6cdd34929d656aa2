-- ===== src/Tests/Records.antt =====
-- The journal, the timeline, the incidents, the schema and a start, on small databases.
use edge_sentinel.Diagnostics.Incidents
use edge_sentinel.Prelude.{
  Bool, List, Option, String, [], ap, arith, drop, false, if◌then◌else◌, length, none, refl, some,
  str_eq, true, ℕ, ◌+◌, ◌-◌, ◌<◌, ◌∙◌, ◌∷◌, ◌≡◌, ◌≢◌, ◌≤◌, ◌⊎◌,
}
use edge_sentinel.Core.Errors.{application, cancelled}
use edge_sentinel.Core.Effects.{Result, err, ok}
use edge_sentinel.Core.Events.{Event, Severity, Value, text}
use edge_sentinel.Diagnostics.Timeline.{Metadata, row_to_event}
use edge_sentinel.Durability.Operations.Settled.{IsSettled, replays, replays_settle}
use edge_sentinel.Durability.Operations.Attempted.{Own, Spares}
use edge_sentinel.Durability.Operations.Alone.{alone, alone-IsUncancelled, alone-Spares}
use edge_sentinel.Durability.Operations.{Context, Handler, Operation, execute, replay_pending, tell}
use edge_sentinel.Persistence.Database.{
  Database, EventFilter, EventRow, IntentRow, IntentStatus, in_progress, pending,
}
use edge_sentinel.Durability.Operations.Replay.{replay_pending_returns}
use edge_sentinel.Durability.Journal.{Holds, Intent, row_to_intent}
use edge_sentinel.Durability.Operations.Rows.{Marked}
use edge_sentinel.Durability.Operations.Outcome.{execute_outcome, settled_result, settled_status}
use edge_sentinel.Persistence.Migrations.{runtime_state_table}
use edge_sentinel.Diagnostics.Incidents.{Tracker, incidents}
use edge_sentinel.Diagnostics.Incidents.History.{feed_each, observe_all, tracker_history}

abbrev event : String → String → ℕ → Severity → EventRow
event type current time severity = record {
  type = type;
  component = "runtime";
  severity = severity;
  timestamp = time;
  metadata = current;
}

abbrev stored : IntentStatus → ℕ → IntentRow
stored status attempts = record {
  id = "a1";
  operation = "upload";
  payload = "{}";
  status = status;
  attempts = attempts;
  last_error = none;
  created_at = 0;
  updated_at = 0;
}

abbrev database : IntentStatus → ℕ → Database
database status attempts = record {
  connected = true;
  now = 50;
  applied = (1, "initial_schema") ∷ [];
  tables = runtime_state_table ∷ [];
  runtime_state = none;
  breakers = [];
  intents = stored status attempts ∷ [];
  events =
      event "state_change" "degraded" 3 Severity.info
      ∷ event "storage_low" "x" 4 Severity.error
      ∷ event "other" "x" 5 Severity.critical
      ∷ [];
}

abbrev itself : Holds Database
itself = record { get = λ d. d; put = λ d s. d; get-put = λ d s. refl }

abbrev any : EventFilter
any = record { component = none; type = none; since = none; until = none }

abbrev current_text : String → Metadata
current_text s = ("current", text s) ∷ []

abbrev stream : List Event
stream =
    row_to_event current_text (event "state_change" "degraded" 3 Severity.info)
    ∷ row_to_event current_text (event "state_change" "healthy" 5 Severity.info)
    ∷ row_to_event current_text (event "state_change" "offline" 8 Severity.info)
    ∷ row_to_event current_text (event "state_change" "healthy" 9 Severity.info)
    ∷ row_to_event current_text (event "state_change" "failed" 11 Severity.info)
    ∷ []

abbrev tracker : Tracker
tracker = record { max_history = 1; builder = Incidents.empty; attached = false }

tracker_history_example :
    (incidents (observe_all stream tracker)
      ≡ drop
          (length (feed_each stream Incidents.empty).closed - 1)
          (feed_each stream Incidents.empty).closed)
    × ((observe_all stream tracker).builder.open_ ≡ (feed_each stream Incidents.empty).open_)
    × (length (incidents (observe_all stream tracker)) ≤ 1)
unfolding Incidents.create
tracker_history_example = tracker_history 1 tracker stream refl

abbrev context : Context Database String
context = record {
  holds = itself;
  json = record { dumps = λ p. some p; loads = λ s. s };
  events = none;
  component = "durability";
  str = λ e. "boom";
  is_started = λ d. true;
}

abbrev upload : Operation Database String ℕ
upload = record {
  operation = "upload";
  max_attempts = some 2;
  variadic = false;
  func = λ p d. (err (application 4), d);
}

abbrev intent : Intent String
intent = row_to_intent context.json (stored pending 1)

execute_outcome_example :
    (r : Result ℕ) × ((s' : Database) × ((upload.func intent.payload s').0 ≡ r))
    × ((execute context upload intent (database pending 1)).0
        ≡ settled_result context upload "a1" 2 r)
    × Marked itself context.json "a1" "upload"
        (settled_status context upload "a1" 2 r)
        2
        (execute context upload intent (database pending 1)).1
execute_outcome_example =
    execute_outcome context upload "a1" (λ type severity metadata row s h. h) intent
      (stored pending 1) (database pending 1) refl (refl, refl) (λ row s h. h)

abbrev fails_again : Handler Database String
fails_again = record { operation = "upload"; replay = λ i d. (err (application 4), d) }

abbrev answer : Intent String → Database → Option (Handler Database String) → Result Unit
answer i s none = ok tt
answer i s (some h) = (h.replay i s).0

raises_only :
    (b : Bool) (h : Handler Database String) (i : Intent String) (s : Database)
    → (if b then some fails_again else none) ≡ some h
    → (h.replay i s).0 ≢ err cancelled
raises_only true h i s e c =
    let same : answer i s (some fails_again) ≡ err cancelled = ap (answer i s) e ∙ c in cc
raises_only false h i s e c = cc

replay_pending_returns_example :
    replay_pending context (fails_again ∷ []) (database in_progress 2) ≡ (
      ok tt,
      (fails_again.replay
          (row_to_intent context.json (stored in_progress 2))
          (database in_progress 2)).1,
    )
replay_pending_returns_example =
    replay_pending_returns context (fails_again ∷ [])
      (λ name h i s found. raises_only (str_eq "upload" name) h i s found) (database in_progress 2)
      refl

-- Two starts after a first attempt that failed.
replays_settle_example :
    (row : IntentRow) × Own context "a1" row
      (replays context (alone context upload) 2 (database pending 0))
    × (row.attempts ≤ 2)
    × (IsSettled row ⊎ (0 + 2 < 2))
replays_settle_example =
    replays_settle context "a1" upload (alone context upload) 2 refl refl
      (alone-IsUncancelled context upload (λ p. record { at = λ d. λ c. cc })) spares_all
      (λ p. ((λ row s h. h), record { at = λ s h. h }))
      (alone-Spares context upload "a1" spares_all
        (λ p. ((λ row s h. h), record { at = λ s h. h })))
      2 (stored pending 0) (database pending 0) ((refl, refl), refl) refl (omega arith)
  where
    spares_all :
        (type : String) (severity : Severity) (metadata : List (String × Value))
        → Spares context "a1" (tell context type severity metadata)
    spares_all type severity metadata = ((λ row s h. h), record { at = λ s h. h })
