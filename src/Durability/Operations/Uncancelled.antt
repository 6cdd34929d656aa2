-- ===== src/Durability/Operations/Uncancelled.antt =====
-- An attempt is cancelled only if the decorated function is.
use edge_sentinel.Durability.Journal
use edge_sentinel.Durability.Operations
use edge_sentinel.Persistence.Database
use edge_sentinel.Prelude.{List, Option, String, ap, arith, if◌then◌else◌, none, some, ℕ, ◌+◌, ◌≢◌}
use edge_sentinel.Core.Errors.{
  Error, cancelled, durable_operation_exhausted, is_exception, key_error,
}
use edge_sentinel.Core.Effects.{Result, done, err, ok, pure, raise, ◌>>=◌}
use edge_sentinel.Core.Events.{Severity, Value}
use edge_sentinel.Core.Effects.Calm.{IsCalm, bind-IsCalm, if-IsCalm, pure-IsCalm, raise-IsCalm}
use edge_sentinel.Core.Events.Laws.{emit_ok}
use edge_sentinel.Durability.Journal.{Holds, Intent, Json, on_db}
use edge_sentinel.Durability.Operations.{
  Context, Operation, execute, is_exhausted, on_failure, on_success, settle, tell,
}
use edge_sentinel.Persistence.Database.{
  Database, IntentStatus, completed, failed_, in_progress, pending,
}

module _ {S P : Type 0} (holds : Holds S) (json : Json P) where
  found-IsCalm :
      {A : Type 0} (e : Error) (o : Option A)
      → e ≢ cancelled
      → IsCalm (Journal.or_raise holds json e o)
  found-IsCalm e none n = raise-IsCalm e n
  found-IsCalm e (some a) n = pure-IsCalm a

  loads-IsCalm : (i : String) → IsCalm (on_db holds (Database.load_intent i))
  unfolding Database.load_intent
  loads-IsCalm i = record { at = λ s. ground arith }

  updates-IsCalm :
      (i : String) (status : IntentStatus) (attempts : ℕ) (last_error : Option String)
      → IsCalm (on_db holds (Database.update_intent i status attempts last_error))
  unfolding Database.update_intent
  updates-IsCalm i status attempts last_error = record { at = λ s. ground arith }

  require-IsCalm : (i : String) → IsCalm (Journal.require holds json i)
  unfolding Journal.require Journal.get
  require-IsCalm i =
      bind-IsCalm
        (on_db holds (Database.load_intent i) >>= λ row. pure (Journal.intent_of holds json row)) _
        (bind-IsCalm (on_db holds (Database.load_intent i)) _ (loads-IsCalm i)
          (λ row. pure-IsCalm (Journal.intent_of holds json row)))
        (λ found. found-IsCalm key_error found (λ c. cc))

  marks-IsCalm :
      (i : String) (status : IntentStatus) (attempts : Intent P → ℕ)
      (last_error : Intent P → Option String)
      → IsCalm (do
        current ← Journal.require holds json i
        on_db holds (Database.update_intent i status (attempts current) (last_error current)))
  marks-IsCalm i status attempts last_error =
      bind-IsCalm (Journal.require holds json i) _ (require-IsCalm i)
        (λ current. updates-IsCalm i status (attempts current) (last_error current))

  mark_in_progress-IsCalm : (i : String) → IsCalm (Journal.mark_in_progress holds json i)
  unfolding Journal.mark_in_progress
  mark_in_progress-IsCalm i =
      bind-IsCalm (Journal.require holds json i) _ (require-IsCalm i) λ current.
        bind-IsCalm
          (on_db holds
            (Database.update_intent i in_progress (current.attempts + 1) current.last_error))
          _ (updates-IsCalm i in_progress (current.attempts + 1) current.last_error)
          (λ u. pure-IsCalm _)

module _ {S P : Type 0} (context : Context S P) {A : Type 0} (op : Operation S P A) where
  tell-IsCalm :
      (type : String) (severity : Severity) (metadata : List (String × Value))
      → IsCalm (tell context type severity metadata)
  tell-IsCalm type severity metadata = record {
    at = λ s. ground (arith, emit_ok context.events type context.component severity metadata s);
  }

  settle-IsCalm :
      (intent : Intent P) (attempts : ℕ) (r : Result A)
      → r ≢ err cancelled
      → IsCalm (settle context op intent attempts r)
  unfolding settle on_success on_failure Journal.mark_completed Journal.mark_failed
      Journal.mark_pending_for_retry
  settle-IsCalm intent attempts (ok result) n =
      bind-IsCalm (Journal.mark_completed context.holds context.json intent.id) _
        (marks-IsCalm context.holds context.json intent.id completed (λ i. i.attempts) (λ i. none))
        λ u. bind-IsCalm (tell context _ _ _) _ (tell-IsCalm _ _ _) λ v. pure-IsCalm result
  settle-IsCalm intent attempts (err e) n =
      let exhausted = is_exhausted context op.max_attempts attempts in
      if-IsCalm (is_exception e) (on_failure context op intent attempts e) (raise e)
        (bind-IsCalm
          (if exhausted
            then Journal.mark_failed context.holds context.json intent.id (context.str e)
            else Journal.mark_pending_for_retry context.holds context.json intent.id
                (context.str e))
          _
          (if-IsCalm exhausted
            (Journal.mark_failed context.holds context.json intent.id (context.str e))
            (Journal.mark_pending_for_retry context.holds context.json intent.id (context.str e))
            (marks-IsCalm context.holds context.json intent.id failed_ (λ i. i.attempts)
              (λ i. some (context.str e)))
            (marks-IsCalm context.holds context.json intent.id pending (λ i. i.attempts)
              (λ i. some (context.str e))))
          λ u. bind-IsCalm (tell context _ _ _) _ (tell-IsCalm _ _ _) λ v.
            if-IsCalm exhausted
              (raise (durable_operation_exhausted op.operation intent.id attempts)) (raise e)
              (raise-IsCalm (durable_operation_exhausted op.operation intent.id attempts) (λ c. cc))
              (raise-IsCalm e (λ c. n (ap err c))))
        (raise-IsCalm e (λ c. n (ap err c)))

  execute-IsCalm :
      (intent : Intent P) → IsCalm (op.func intent.payload) → IsCalm (execute context op intent)
  unfolding execute
  execute-IsCalm intent runs =
      bind-IsCalm (Journal.mark_in_progress context.holds context.json intent.id) _
        (mark_in_progress-IsCalm context.holds context.json intent.id)
        λ updated.
          bind-IsCalm (tell context _ _ _)
            (λ u. λ s.
              (let (r, t) = op.func intent.payload s in
                settle context op intent updated.attempts r t))
            (tell-IsCalm _ _ _)
            λ u. record {
              at = λ s.
                  (settle-IsCalm intent updated.attempts (op.func intent.payload s).0
                      (runs.at s)).at
                    (op.func intent.payload s).1;
            }

  pub replay-IsCalm :
      (intent : Intent P)
      → IsCalm (op.func intent.payload)
      → IsCalm (Operations.replay context op intent)
  unfolding Operations.replay
  replay-IsCalm intent runs =
      bind-IsCalm (execute context op intent) (λ a. done) (execute-IsCalm intent runs)
        (λ a. pure-IsCalm tt)
