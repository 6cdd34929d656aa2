-- ===== src/Durability/Operations/Kept.antt =====
-- What the updates of one intent keep, an attempt at it keeps.
use edge_sentinel.Durability.Journal
use edge_sentinel.Persistence.Database
use edge_sentinel.Prelude.{
  Bool-cases, List, Option, String, if_false, if_true, if◌then◌else◌, inl, inr, none, some, subst,
  sym, ℕ, ◌+◌,
}
use edge_sentinel.Core.Errors.{Error, durable_operation_exhausted, is_exception, key_error}
use edge_sentinel.Core.Effects.{Action, Result, err, ok, pure, raise, ◌>>=◌}
use edge_sentinel.Core.Events.{Severity, Value}
use edge_sentinel.Core.Effects.Keeps.{Keeps, Keeps-bind, Keeps-if, Keeps-pure}
use edge_sentinel.Durability.Journal.{Holds, Intent, Json, on_db}
use edge_sentinel.Durability.Operations.{
  Context, Operation, execute, is_exhausted, on_failure, on_success, settle, tell,
}
use edge_sentinel.Persistence.Database.{
  Database, IntentRow, IntentStatus, completed, failed_, in_progress, pending,
}

-- A property of the database that every update of one intent keeps.
abbrev pub IsKept : String → (Database → Type 0) → Type 0
IsKept i Q =
    (status : IntentStatus) (attempts : ℕ) (last_error : Option String) (d : Database)
    → Q d
    → Q (Database.update_intent i status attempts last_error d).1

module _ {S P : Type 0} (holds : Holds S) (json : Json P) (Q : Database → Type 0) (i : String)
    (kept : IsKept i Q) where
  abbrev Holding : S → Type 0
  Holding s = Q (holds.get s)

  on_db-Keeps :
      {A : Type 0} (m : Action Database A)
      → ((d : Database) → Q d → Q (m d).1)
      → Keeps Holding (on_db holds m)
  on_db-Keeps m keeps = record {
    at = λ s p. subst Q (sym (holds.get-put (m (holds.get s)).1 s)) (keeps (holds.get s) p);
  }

  raise-Keeps :
      {A : Type 0} (e : Error) (o : Option A) → Keeps Holding (Journal.or_raise holds json e o)
  raise-Keeps e none = Keeps-pure (err e)
  raise-Keeps e (some a) = Keeps-pure (ok a)

  loads_keep : (d : Database) → Q d → Q (Database.load_intent i d).1
  unfolding Database.load_intent
  loads_keep d q = elim (Bool-cases d.connected) [
    | inl c ↦ rw (if_true {A = Result (Option IntentRow) × Database} d.connected _ _ c) q
    | inr c ↦ rw (if_false {A = Result (Option IntentRow) × Database} d.connected _ _ c) q
  ]

  require-Keeps : Keeps Holding (Journal.require holds json i)
  unfolding Journal.require Journal.get
  require-Keeps =
      Keeps-bind
        (on_db holds (Database.load_intent i) >>= λ row. pure (Journal.intent_of holds json row)) _
        (Keeps-bind (on_db holds (Database.load_intent i)) _
          (on_db-Keeps (Database.load_intent i) loads_keep)
          λ row. Keeps-pure (ok (Journal.intent_of holds json row)))
        λ found. raise-Keeps key_error found

  -- The read and the update of the `mark_` methods.
  marks-Keeps :
      (status : IntentStatus) (attempts : Intent P → ℕ) (last_error : Intent P → Option String)
      → Keeps Holding (do
        current ← Journal.require holds json i
        on_db holds (Database.update_intent i status (attempts current) (last_error current)))
  marks-Keeps status attempts last_error =
      Keeps-bind (Journal.require holds json i) _ require-Keeps λ current.
        on_db-Keeps (Database.update_intent i status (attempts current) (last_error current))
          (kept status (attempts current) (last_error current))

  mark_in_progress-Keeps : Keeps Holding (Journal.mark_in_progress holds json i)
  unfolding Journal.mark_in_progress
  mark_in_progress-Keeps = Keeps-bind (Journal.require holds json i) _ require-Keeps λ current.
      Keeps-bind
        (on_db holds
          (Database.update_intent i in_progress (current.attempts + 1) current.last_error))
        _
        (on_db-Keeps
          (Database.update_intent i in_progress (current.attempts + 1) current.last_error)
          (kept in_progress (current.attempts + 1) current.last_error))
        λ u. Keeps-pure (ok _)

module _ {S P : Type 0} (context : Context S P) {A : Type 0} (op : Operation S P A)
    (Q : Database → Type 0) (intent : Intent P) (kept : IsKept intent.id Q)
    (tells : (type : String) (severity : Severity) (metadata : List (String × Value))
      → Keeps
          (Holding context.holds context.json Q intent.id kept)
          (tell context type severity metadata)) where
  abbrev Kept : S → Type 0
  Kept s = Q (context.holds.get s)

  settle-Keeps : (attempts : ℕ) (r : Result A) → Keeps Kept (settle context op intent attempts r)
  unfolding settle on_success on_failure Journal.mark_completed Journal.mark_failed
      Journal.mark_pending_for_retry
  settle-Keeps attempts (ok result) =
      Keeps-bind (Journal.mark_completed context.holds context.json intent.id) _
        (marks-Keeps context.holds context.json Q intent.id kept completed (λ i. i.attempts)
          (λ i. none))
        λ u. Keeps-bind (tell context _ _ _) _ (tells _ _ _) λ v. Keeps-pure (ok result)
  settle-Keeps attempts (err e) =
      let exhausted = is_exhausted context op.max_attempts attempts in
      let mark : (status : IntentStatus)
          → Keeps Kept (do
            current ← Journal.require context.holds context.json intent.id
            on_db context.holds
                (Database.update_intent intent.id status current.attempts (some (context.str e)))) =
        λ status.
          marks-Keeps context.holds context.json Q intent.id kept status (λ i. i.attempts)
            (λ i. some (context.str e)) in
      Keeps-if (is_exception e) (on_failure context op intent attempts e) (raise e)
        (Keeps-bind
          (if exhausted
            then Journal.mark_failed context.holds context.json intent.id (context.str e)
            else Journal.mark_pending_for_retry context.holds context.json intent.id
                (context.str e))
          _
          (Keeps-if exhausted
            (Journal.mark_failed context.holds context.json intent.id (context.str e))
            (Journal.mark_pending_for_retry context.holds context.json intent.id (context.str e))
            (mark failed_) (mark pending))
          λ u. Keeps-bind (tell context _ _ _) _ (tells _ _ _) λ v.
            Keeps-if exhausted (raise (durable_operation_exhausted op.operation intent.id attempts))
              (raise e)
              (Keeps-pure (err (durable_operation_exhausted op.operation intent.id attempts)))
              (Keeps-pure (err e)))
        (Keeps-pure (err e))

  pub execute-Keeps : Keeps Kept (op.func intent.payload) → Keeps Kept (execute context op intent)
  unfolding execute
  execute-Keeps runs =
      Keeps-bind (Journal.mark_in_progress context.holds context.json intent.id) _
        (mark_in_progress-Keeps context.holds context.json Q intent.id kept)
        λ updated.
          Keeps-bind (tell context _ _ _)
            (λ u. λ s.
              (let (r, t) = op.func intent.payload s in
                settle context op intent updated.attempts r t))
            (tells _ _ _)
            λ u. record {
              at = λ s p.
                  (settle-Keeps updated.attempts (op.func intent.payload s).0).at
                    (op.func intent.payload s).1 (runs.at s p);
            }
