-- ===== src/Durability/Journal.antt =====
-- src/edgesentinel/durability/journal.py, over a state that holds the database.
use edge_sentinel.Persistence.Database
use edge_sentinel.Prelude.{List, Option, String, map, none, some, ℕ, ◌+◌, ◌-◌, ◌≡◌}
use edge_sentinel.Core.Errors.{Error, invalid_durable_payload, key_error, runtime_error}
use edge_sentinel.Core.Effects.{Action, pure, raise, ◌>>=◌, ◌>>◌}
use edge_sentinel.Persistence.Database.{
  Database, IntentRow, IntentStatus, completed, failed_, in_progress, pending,
}

-- Where a state holds the database.
pub record Holds (S : Type 0) : Type 0 where
  pub get : S → Database
  pub put : Database → S → S
  pub get-put : (d : Database) (s : S) → get (put d s) ≡ d

-- `json.dumps` of a dictionary of arguments, which fails on what JSON cannot hold, and `json.loads`
-- of a text that `json.dumps` wrote: the journal alone fills the column of the payloads.
pub record Json (P : Type 0) : Type 0 where
  pub dumps : P → Option String
  pub loads : String → P

pub record Intent (P : Type 0) : Type 0 where
  pub id : String
  pub operation : String
  pub payload : P
  pub status : IntentStatus
  pub attempts : ℕ
  pub last_error : Option String
  pub created_at : ℕ
  pub updated_at : ℕ

-- `_row_to_intent`.
abbrev pub row_to_intent : {P : Type 0} → Json P → IntentRow → Intent P
row_to_intent json row = record {
  id = row.id;
  operation = row.operation;
  payload = json.loads row.payload;
  status = row.status;
  attempts = row.attempts;
  last_error = row.last_error;
  created_at = row.created_at;
  updated_at = row.updated_at;
}

abbrev pub on_db : {S A : Type 0} → Holds S → Action Database A → Action S A
on_db holds m s = let (r, d) = m (holds.get s) in (r, holds.put d s)

module _ {S P : Type 0} (holds : Holds S) (json : Json P) where
  abbrev pub intent_of : Option IntentRow → Option (Intent P)
  intent_of none = none
  intent_of (some row) = some (row_to_intent json row)

  unfoldable pub get : String → Action S (Option (Intent P))
  get id = do row ← on_db holds (Database.load_intent id); pure (intent_of row)

  abbrev pub or_raise : {A : Type 0} → Error → Option A → Action S A
  or_raise e none = raise e
  or_raise e (some a) = pure a

  -- `_require`.
  unfoldable pub require : String → Action S (Intent P)
  unfolding get
  require id = do found ← get id; or_raise key_error found

  -- `older_than` is a span of time before `now`.
  unfoldable prune_completed : ℕ → ℕ → Action S ℕ
  prune_completed now older_than = on_db holds (Database.prune_completed_intents (now - older_than))

  -- `record`. The identifier is the one that `uuid4` gives.
  unfoldable pub record_intent : String → String → P → Action S (Intent P)
  unfolding get
  record_intent id operation payload = do
    serialized ← or_raise invalid_durable_payload (json.dumps payload)
    on_db holds (Database.insert_intent id operation serialized)
    found ← get id
    or_raise runtime_error found

  unfoldable pub mark_in_progress : String → Action S (Intent P)
  unfolding require
  mark_in_progress id = do
    current ← require id
    on_db holds (Database.update_intent id in_progress (current.attempts + 1) current.last_error)
    pure (record {
      id = current.id;
      operation = current.operation;
      payload = current.payload;
      status = in_progress;
      attempts = current.attempts + 1;
      last_error = current.last_error;
      created_at = current.created_at;
      updated_at = current.updated_at;
    })

  unfoldable pub mark_completed : String → Action S Unit
  unfolding require
  mark_completed id = do
    current ← require id
    on_db holds (Database.update_intent id completed current.attempts none)

  unfoldable pub mark_pending_for_retry : String → String → Action S Unit
  unfolding require
  mark_pending_for_retry id message = do
    current ← require id
    on_db holds (Database.update_intent id pending current.attempts (some message))

  unfoldable pub mark_failed : String → String → Action S Unit
  unfolding require
  mark_failed id message = do
    current ← require id
    on_db holds (Database.update_intent id failed_ current.attempts (some message))

  -- `pending`.
  unfoldable pub unfinished : Action S (List (Intent P))
  unfinished = do
    rows ← on_db holds Database.load_unfinished_intents
    pure (map (row_to_intent json) rows)
