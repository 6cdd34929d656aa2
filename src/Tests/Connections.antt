-- ===== src/Tests/Connections.antt =====
-- A connection to a file that holds a number.
use edge_sentinel.Prelude.{
  Bool, List, String, [], arith, eq_iff, false, if◌then◌else◌, none, refl, some, str_eq, true, ℕ,
  ◌+◌, ◌∷◌, ◌≡◌,
}
use edge_sentinel.Core.Errors.{cancelled, database_error}
use edge_sentinel.Core.Effects.{Action, err, ok, raise, ◌>>◌}
use edge_sentinel.Core.Events.{Value}
use edge_sentinel.Durability.Ahead.{new_intent, record_intent_outcome}
use edge_sentinel.Durability.Journal.{Holds, Json, record_intent, unfinished}
use edge_sentinel.Resilience.Breaker.{Breaker, Clock, Saved, closed, open_, persist, restore}
use edge_sentinel.Persistence.Breakers.{database_store, on_database, restart_keeps_circuit}
use edge_sentinel.Persistence.Database.{Database, save_circuit_breaker_state}
use edge_sentinel.Prelude.Int.{pos}
use edge_sentinel.Persistence.Connection.{Connection, Sqlite}

record Ledger : Type 0 where
  pub value : ℕ
  pub saved : ℕ
  pub is_open : Bool

abbrev ledger_execute : String → List Value → Action Ledger (List ℕ)
ledger_execute sql params c =
    if str_eq sql "BEGIN IMMEDIATE"
    then if c.is_open
      then (err database_error, c)
      else (ok [], record { value = c.value; saved = c.value; is_open = true })
    else (ok [], record { value = c.value + 1; saved = c.saved; is_open = c.is_open })

abbrev ledger : Sqlite Ledger ℕ
ledger = record {
  connect = λ path c. (ok tt, c);
  close = λ c. (ok tt, c);
  execute = ledger_execute;
  executemany = λ sql rows c. (ok tt, c);
  commit = λ c. (ok tt, record { value = c.value; saved = c.saved; is_open = false });
  rollback = λ c. (ok tt, record { value = c.saved; saved = c.saved; is_open = false });
}

-- A block that is cancelled after an update.
abbrev interrupted : Action Ledger Unit
interrupted = do ledger_execute "UPDATE" []; raise {A = Unit} cancelled

abbrev opened : Connection Ledger
opened = record { is_connected = true; file = record { value = 5; saved = 0; is_open = false } }

-- A transaction that is tried after it.
abbrev retried : Action Ledger ℕ
retried c = (ok 1, c)

-- A database beside a clock.
abbrev beside : Holds (Database × ℕ)
beside = record { get = λ w. w.0; put = λ d w. (d, w.1); get-put = λ d w. refl }

abbrev wall : Clock (Database × ℕ)
wall = record { monotonic = λ w. w.1; time = λ w. w.1 }

abbrev stored_in : List (String × Saved) → Database
stored_in rows = record {
  connected = true;
  now = 0;
  applied = [];
  tables = [];
  runtime_state = none;
  breakers = rows;
  intents = [];
  events = [];
}

abbrev tripped : Breaker (Database × ℕ)
tripped = record {
  state = open_;
  failure_count = 3;
  opened_at_monotonic = pos 100;
  opened_at_wallclock = some 100;
  half_open_in_flight = false;
  world = (stored_in [], 100);
}

abbrev row : Saved
row = record { state = "open"; failure_count = 3; opened_at = some 100 }

abbrev after_reboot : Breaker (Database × ℕ)
after_reboot = record {
  state = closed;
  failure_count = 0;
  opened_at_monotonic = pos 0;
  opened_at_wallclock = none;
  half_open_in_flight = false;
  world = (stored_in (("cloud", row) ∷ ("broker", row) ∷ []), 120);
}

restart_keeps_circuit_example :
    ((restore (on_database beside 3 30 "cloud") wall after_reboot).0 ≡ ok tt)
    × ((restore (on_database beside 3 30 "cloud") wall after_reboot).1.state ≡ open_)
    × ((restore (on_database beside 3 30 "cloud") wall after_reboot).1.failure_count ≡ 3)
    × ((restore (on_database beside 3 30 "cloud") wall after_reboot).1.opened_at_wallclock
        ≡ some 100)
unfolding on_database persist save_circuit_breaker_state database_store
restart_keeps_circuit_example =
    restart_keeps_circuit beside 3 30 "cloud" wall tripped after_reboot 100 (("broker", row) ∷ [])
      refl refl refl ((λ e. ground (arith, eq_iff "broker" "cloud")), tt) refl refl refl
      (omega arith)

-- Arguments that are their own JSON text.
abbrev verbatim : Json String
verbatim = record { dumps = λ p. some p; loads = λ s. s }

record_intent_outcome_example :
    ((record_intent beside verbatim "a1" "publish" "{}" (stored_in [], 7)).0
      ≡ ok (new_intent beside verbatim "a1" "publish" "{}" "{}" 0))
    × ((unfinished beside verbatim
          (record_intent beside verbatim "a1" "publish" "{}" (stored_in [], 7)).1).0
        ≡ ok (new_intent beside verbatim "a1" "publish" "{}" "{}" 0 ∷ []))
record_intent_outcome_example =
    record_intent_outcome beside verbatim "a1" "publish" "{}" "{}" (stored_in [], 7) refl refl refl
      refl
