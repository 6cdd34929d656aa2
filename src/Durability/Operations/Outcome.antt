-- ===== src/Durability/Operations/Outcome.antt =====
-- How an attempt of a durable operation ends.
use edge_sentinel.Durability.Journal
use edge_sentinel.Prelude.{
  Bool, Bool-cases, List, Option, String, [], ap, arith, false, if◌then◌else◌, inl, inr, ltb, none,
  not, refl, some, subst, sym, ℕ, ◌+◌, ◌∙◌, ◌∷◌, ◌≡◌,
}
use edge_sentinel.Core.Errors.{Error, durable_operation_exhausted, is_exception}
use edge_sentinel.Core.Effects.{Action, Result, err, ok, ◌>>=◌, ◌>>◌}
use edge_sentinel.Core.Events.{Severity, Value, number, text}
use edge_sentinel.Durability.Operations.Rows.{
  HasRow, LeavesRow, Marked, mark_in_progress_row, mark_row,
}
use edge_sentinel.Durability.Operations.{
  Context, Operation, execute, is_exhausted, on_failure, on_success, settle, tell,
}
use edge_sentinel.Durability.Journal.{Intent}
use edge_sentinel.Persistence.Database.{
  IntentRow, IntentStatus, completed, failed_, in_progress, pending,
}
use edge_sentinel.Core.Effects.Laws.{bind-ok}
use edge_sentinel.Core.Events.Laws.{emit_ok}

module _ {S P : Type 0} (context : Context S P) {A : Type 0} (op : Operation S P A)
    (id : String) where
  -- `max_attempts` is given, and so many attempts reach it.
  abbrev pub has_reached : Option ℕ → ℕ → Bool
  has_reached none attempts = false
  has_reached (some max) attempts = not (ltb attempts max)

  reaches :
      (max : Option ℕ) (attempts : ℕ) → is_exhausted context max attempts ≡ has_reached max attempts
  reaches none attempts = refl
  reaches (some max) attempts = ground arith

  -- The status that the row ends with, by what the function did in an attempt.
  abbrev pub settled_status : ℕ → Result A → IntentStatus
  settled_status attempts (ok result) = completed
  settled_status attempts (err e) =
      if is_exception e
      then if has_reached op.max_attempts attempts then failed_ else pending
      else in_progress

  -- What the caller gets.
  abbrev pub settled_result : ℕ → Result A → Result A
  settled_result attempts (ok result) = ok result
  settled_result attempts (err e) =
      if is_exception e
      then if has_reached op.max_attempts attempts
        then err (durable_operation_exhausted op.operation id attempts)
        else err e
      else err e

  module _
      (tells : (type : String) (severity : Severity) (metadata : List (String × Value))
        → LeavesRow context.holds id (tell context type severity metadata)) where
    -- An update, an event, and the end.
    ending :
        (mark : Action S Unit) (type : String) (severity : Severity)
        (metadata : List (String × Value)) (r : Result A) (operation : String)
        (status : IntentStatus) (attempts : ℕ) (s : S)
        → (mark s).0 ≡ ok tt
        → Marked context.holds context.json id operation status attempts (mark s).1
        → (let m : Action S A = mark >> (tell context type severity metadata >> λ s'. (r, s')) in
            ((m s).0 ≡ r) × Marked context.holds context.json id operation status attempts (m s).1)
    ending mark type severity metadata r operation status attempts s wrote
          (row, there, op_, st, at_) =
        let next : Action S A = tell context type severity metadata >> λ s'. (r, s') in
        rw
          (
            bind-ok mark (λ _. next) s tt wrote,
            bind-ok (tell context type severity metadata) (λ _. λ (s' : S). (r, s')) (mark s).1 tt
                (emit_ok context.events type context.component severity metadata (mark s).1),
          )
          (refl, (row, tells type severity metadata row (mark s).1 there, op_, st, at_))

    failing :
        (intent : Intent P) (attempts : ℕ) (e : Error) (row : IntentRow) (s : S)
        → intent.id ≡ id
        → HasRow context.holds id row s
        → row.attempts ≡ attempts
        → ((on_failure context op intent attempts e s).0 ≡ (
            if has_reached op.max_attempts attempts
            then err (durable_operation_exhausted op.operation id attempts)
            else err e))
          × Marked context.holds context.json id row.operation
              (if has_reached op.max_attempts attempts then failed_ else pending)
              attempts
              (on_failure context op intent attempts e s).1
    unfolding on_failure Journal.mark_failed Journal.mark_pending_for_retry
    failing intent attempts e row s same h at_ =
        let message = context.str e in
        let meta =
          ("operation", text op.operation)
          ∷ ("intent_id", text id)
          ∷ ("attempt", number attempts)
          ∷ ("error", text message)
          ∷ [] in
        elim (Bool-cases (is_exhausted context op.max_attempts attempts)) [
          | inl y ↦
              let (wrote, marks) =
                mark_row context.holds context.json id failed_ (λ i. i.attempts) (λ i. some message)
                  row s h in
              rw (sym (reaches op.max_attempts attempts), y, same)
                (ending (Journal.mark_failed context.holds context.json id message)
                  "durable_operation_exhausted" Severity.error meta
                  (err (durable_operation_exhausted op.operation id attempts)) row.operation failed_
                  attempts s wrote (rw (sym at_) marks))
          | inr n ↦
              let (wrote, marks) =
                mark_row context.holds context.json id pending (λ i. i.attempts) (λ i. some message)
                  row s h in
              rw (sym (reaches op.max_attempts attempts), n, same)
                (ending (Journal.mark_pending_for_retry context.holds context.json id message)
                  "durable_operation_retry_pending" Severity.warning meta (err e) row.operation
                  pending attempts s wrote (rw (sym at_) marks))
        ]

    settle_outcome :
        (intent : Intent P) (attempts : ℕ) (r : Result A) (row : IntentRow) (s : S)
        → intent.id ≡ id
        → HasRow context.holds id row s
        → row.status ≡ in_progress
        → row.attempts ≡ attempts
        → ((settle context op intent attempts r s).0 ≡ settled_result attempts r)
          × Marked context.holds context.json id row.operation
              (settled_status attempts r)
              attempts
              (settle context op intent attempts r s).1
    unfolding settle on_success Journal.mark_completed
    settle_outcome intent attempts (ok result) row s same h st at_ =
        let (wrote, marks) =
          mark_row context.holds context.json id completed (λ i. i.attempts) (λ i. none) row s h in
        rw same (
          ending (Journal.mark_completed context.holds context.json id)
            "durable_operation_completed" Severity.info
            (("operation", text op.operation) ∷ ("intent_id", text id) ∷ []) (ok result)
            row.operation completed attempts s wrote (rw (sym at_) marks))
    settle_outcome intent attempts (err e) row s same h st at_ =
        elim (Bool-cases (is_exception e)) [
          | inl y ↦ rw y (failing intent attempts e row s same h at_)
          | inr n ↦ rw n (refl, (row, h, refl, st, at_))
        ]

    -- An attempt at an intent that the journal holds counts as one more, whatever the row's status and
    -- count were. The row is COMPLETED and the caller has the result if the function returned; if it
    -- raised an exception, the row is FAILED and the caller has DurableOperationExhausted where a
    -- `max_attempts` is given and this attempt reaches it, and the row is PENDING and the caller has the exception
    -- where not; if it was cancelled, the row stays IN_PROGRESS. In all cases it keeps its operation.
    -- Events and the function itself are assumed to leave the row alone.
    pub execute_outcome :
        (intent : Intent P) (row : IntentRow) (s : S)
        → intent.id ≡ id
        → HasRow context.holds id row s
        → LeavesRow context.holds id (op.func intent.payload)
        → (r : Result A) × ((s' : S) × ((op.func intent.payload s').0 ≡ r))
          × ((execute context op intent s).0 ≡ settled_result (row.attempts + 1) r)
          × Marked context.holds context.json id row.operation
              (settled_status (row.attempts + 1) r)
              (row.attempts + 1)
              (execute context op intent s).1
    unfolding execute
    execute_outcome intent row s same h keeps =
        let ((updated, ok_, counts), (row', there, op_, st, at_)) =
          mark_in_progress_row context.holds context.json id row s h in
        let s' = (Journal.mark_in_progress context.holds context.json id s).1 in
        let meta : ℕ → List (String × Value) = λ n.
          ("operation", text op.operation) ∷ ("intent_id", text id) ∷ ("attempt", number n) ∷ [] in
        let told =
          (tell context "durable_operation_started" Severity.info (meta updated.attempts) s').1 in
        let there' =
          tells "durable_operation_started" Severity.info (meta updated.attempts) row' s' there in
        let ran = op.func intent.payload told in
        let (answered, (row'', held, op', st', at')) =
          settle_outcome intent (row.attempts + 1) ran.0 row' ran.1 same (keeps row' told there') st
            at_ in
        let run : execute context op intent s
            ≡ settle context op intent (row.attempts + 1) ran.0 ran.1 =
          ap (λ i. (Journal.mark_in_progress context.holds context.json i >>= after i) s) same
          ∙ bind-ok (Journal.mark_in_progress context.holds context.json id) (after id) s updated
              ok_
          ∙ bind-ok (tell context "durable_operation_started" Severity.info (meta updated.attempts))
              (λ _. attempt updated) s' tt
              (emit_ok context.events "durable_operation_started" context.component Severity.info
                (meta updated.attempts) s')
          ∙ ap (λ n. settle context op intent n ran.0 ran.1) counts in
        let (p, q) =
          subst
            (λ (x : Result A × S).
              (x.0 ≡ settled_result (row.attempts + 1) ran.0)
              × Marked context.holds context.json id row.operation
                  (settled_status (row.attempts + 1) ran.0) (row.attempts + 1) x.1)
            (sym run) (answered, (row'', held, op' ∙ op_, st', at')) in
        (ran.0, (told, refl), p, q)
      where
        attempt : Intent P → Action S A
        attempt updated t =
            let (r, t') = op.func intent.payload t in settle context op intent updated.attempts r t'

        after : String → Intent P → Action S A
        after i updated = do
          tell context "durable_operation_started" Severity.info (
              ("operation", text op.operation)
              ∷ ("intent_id", text i)
              ∷ ("attempt", number updated.attempts)
              ∷ [])
          attempt updated
