-- ===== src/Durability/Operations.antt =====
-- src/edgesentinel/durability/operations.py: a durable operation and the replay at startup.
pub mod Attempted
pub mod Listed
pub mod Alone
pub mod Uncancelled
pub mod Kept
pub mod Settled
pub mod Keys
pub mod Replay
pub mod Rows
pub mod Outcome
use edge_sentinel.Durability.Journal
use edge_sentinel.Prelude.{
  Bool, List, Option, String, [], false, if◌then◌else◌, is_given_zero, leb, none, not, some, str_eq,
  true, ℕ, ◌++◌, ◌∷◌,
}
use edge_sentinel.Core.Errors.{
  Error, durable_operation_exhausted, invalid_durable_payload, is_exception, runtime_not_started,
  value_error,
}
use edge_sentinel.Core.Effects.{Action, Result, catch, done, err, ok, pure, raise, ◌>>=◌, ◌>>◌}
use edge_sentinel.Core.Events.{Bus, Severity, Value, emit, number, text}
use edge_sentinel.Durability.Journal.{Holds, Intent, Json}

-- A durable operation as it is decorated: `func` is called with the arguments by name, `str` is
-- Python's on exceptions. The signature's parameters are told by whether one is `*args` or `**kwargs`.
pub record Operation (S P A : Type 0) : Type 0 where
  pub operation : String
  pub max_attempts : Option ℕ
  pub variadic : Bool
  pub func : P → Action S A

-- What `build_durable_decorator` is given beside the operation.
pub record Context (S P : Type 0) : Type 0 where
  pub holds : Holds S
  pub json : Json P
  pub events : Option (Bus S)
  pub component : String
  pub str : Error → String
  pub is_started : S → Bool

-- A replay handler, under its operation's name.
pub record Handler (S P : Type 0) : Type 0 where
  pub operation : String
  pub replay : Intent P → Action S Unit

abbrev pub find_handler : {S P : Type 0} → String → List (Handler S P) → Option (Handler S P)
find_handler name [] = none
find_handler name (h ∷ hs) = if str_eq h.operation name then some h else find_handler name hs

module _ {S P : Type 0} (context : Context S P) where
  abbrev pub tell : String → Severity → List (String × Value) → Action S Unit
  tell type severity metadata = emit context.events type context.component severity metadata

  abbrev pub is_exhausted : Option ℕ → ℕ → Bool
  is_exhausted none attempts = false
  is_exhausted (some max) attempts = leb max attempts

  module _ {A : Type 0} (op : Operation S P A) where
    -- The `except` branch of `execute`.
    unfoldable pub on_failure : Intent P → ℕ → Error → Action S A
    unfolding Journal.mark_failed Journal.mark_pending_for_retry
    on_failure intent attempts e =
        let exhausted = is_exhausted op.max_attempts attempts in
        (do
          if exhausted
              then Journal.mark_failed context.holds context.json intent.id (context.str e)
              else Journal.mark_pending_for_retry context.holds context.json intent.id
                  (context.str e)
          tell
              (if exhausted
                then "durable_operation_exhausted"
                else "durable_operation_retry_pending")
              (if exhausted then Severity.error else Severity.warning)
              (("operation", text op.operation)
                ∷ ("intent_id", text intent.id)
                ∷ ("attempt", number attempts)
                ∷ ("error", text (context.str e))
                ∷ [])
          if exhausted
              then raise (durable_operation_exhausted op.operation intent.id attempts)
              else raise e)

    -- The `else` branch of `execute`.
    unfoldable pub on_success : Intent P → A → Action S A
    unfolding Journal.mark_completed
    on_success intent result = do
      Journal.mark_completed context.holds context.json intent.id
      tell "durable_operation_completed" Severity.info
          (("operation", text op.operation) ∷ ("intent_id", text intent.id) ∷ [])
      pure result

    -- What follows the function's call, by its outcome. A cancellation passes.
    unfoldable pub settle : Intent P → ℕ → Result A → Action S A
    unfolding on_failure on_success
    settle intent attempts (ok result) = on_success intent result
    settle intent attempts (err e) =
        if is_exception e then on_failure intent attempts e else raise e

    unfoldable pub execute : Intent P → Action S A
    unfolding Journal.mark_in_progress settle
    execute intent = do
      updated ← Journal.mark_in_progress context.holds context.json intent.id
      tell "durable_operation_started" Severity.info (
          ("operation", text op.operation)
          ∷ ("intent_id", text intent.id)
          ∷ ("attempt", number updated.attempts)
          ∷ [])
      λ s. (let (r, s') = op.func intent.payload s in settle intent updated.attempts r s')

    -- `replay`.
    unfoldable pub replay : Intent P → Action S Unit
    unfolding execute
    replay intent = do execute intent; done

    abbrev is_registered : List (Handler S P) → Bool
    is_registered hs = elim (find_handler op.operation hs) [ none ↦ false | some h ↦ true ]

    -- `build_durable_decorator` and the decoration: the registry after it.
    unfoldable pub decorate : List (Handler S P) → Result (List (Handler S P))
    unfolding replay
    decorate registry =
        if is_given_zero op.max_attempts
        then err value_error
        else if is_registered registry
        then err value_error
        else if op.variadic
        then err invalid_durable_payload
        else ok (registry ++ (record { operation = op.operation; replay = replay } ∷ []))

    -- The decorated function, given the identifier of its new intent and its bound arguments.
    unfoldable pub call : String → P → Action S A
    unfolding Journal.record_intent execute
    call id payload s =
        if not (context.is_started s)
        then (err runtime_not_started, s)
        else (do
          intent ← Journal.record_intent context.holds context.json id op.operation payload
          execute intent)
            s

  -- One intent of `replay_pending`.
  unfoldable pub replay_one : List (Handler S P) → Intent P → Action S Unit
  replay_one registry intent = elim (find_handler intent.operation registry) [
    | none ↦
        tell "durable_operation_unhandled" Severity.warning
          (("operation", text intent.operation) ∷ ("intent_id", text intent.id) ∷ [])
    | some handler ↦ catch (handler.replay intent) (λ e. done)
  ]

  pub replay_all : List (Handler S P) → List (Intent P) → Action S Unit
  replay_all registry [] = done
  replay_all registry (intent ∷ rest) = do replay_one registry intent; replay_all registry rest

  unfoldable pub replay_pending : List (Handler S P) → Action S Unit
  unfolding Journal.unfinished replay_one replay_all
  replay_pending registry = do
    intents ← Journal.unfinished context.holds context.json
    replay_all registry intents
