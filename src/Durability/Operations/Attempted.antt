-- ===== src/Durability/Operations/Attempted.antt =====
-- One attempt at an intent by the replay of a start, and the count of attempts.
use edge_sentinel.Durability.Operations
use edge_sentinel.Prelude.{
  Bool-cases, List, String, ap, arith, inl, inr, ltb, some, subst, sym, true, ℕ, ◌+◌, ◌<◌, ◌∙◌, ◌≡◌,
  ◌≢◌, ◌≤◌,
}
use edge_sentinel.Core.Errors.{cancelled, is_exception}
use edge_sentinel.Core.Effects.{Action, Result, done, err, ok}
use edge_sentinel.Core.Events.{Severity, Value}
use edge_sentinel.Core.Effects.Keeps.{Keeps}
use edge_sentinel.Durability.Journal.{Intent}
use edge_sentinel.Durability.Operations.{
  Context, Handler, Operation, execute, find_handler, replay_one, tell,
}
use edge_sentinel.Durability.Operations.Keys.{Once, execute-Once}
use edge_sentinel.Durability.Operations.Rows.{HasRow, LeavesRow}
use edge_sentinel.Durability.Operations.Outcome.{execute_outcome, settled_result, settled_status}
use edge_sentinel.Durability.Operations.Replay.{IsUncancelled}
use edge_sentinel.Persistence.Database.{IntentRow, is_unfinished}
use edge_sentinel.Core.Effects.Laws.{bind-err, state-then, state-tried}

module _ {S P : Type 0} (context : Context S P) (id : String) where
  -- The intent's row, the only one of its identifier.
  abbrev pub Own : IntentRow → S → Type 0
  Own row s = HasRow context.holds id row s × Once context.holds id s

  -- A call that has nothing to do with the intent.
  abbrev pub Spares : {A : Type 0} → Action S A → Type 0
  Spares m = LeavesRow context.holds id m × Keeps (Once context.holds id) m

  -- An intent with so many attempts behind it: unless it is settled, there are attempts left.
  abbrev pub Counted : String → ℕ → ℕ → IntentRow → Type 0
  Counted operation max n row =
      (row.operation ≡ operation)
      × (row.attempts ≤ max)
      × (is_unfinished row ≡ true → (row.attempts ≡ n) × (n < max))

  abbrev pub Stands : String → ℕ → ℕ → S → Type 0
  Stands operation max n s = (row : IntentRow) × Own row s × Counted operation max n row

  module _ {A : Type 0} (op : Operation S P A) (registry : List (Handler S P)) (max : ℕ)
      (limited : op.max_attempts ≡ some max)
      (registered : find_handler op.operation registry
        ≡ some (record { operation = op.operation; replay = Operations.replay context op }))
      (calm : IsUncancelled registry)
      (tells : (type : String) (severity : Severity) (metadata : List (String × Value))
        → Spares (tell context type severity metadata))
      (runs : (payload : P) → Spares (op.func payload)) where
    abbrev handler : Handler S P
    handler = record { operation = op.operation; replay = Operations.replay context op }

    -- What the journal says after an attempt that was not cancelled.
    counted :
        (n : ℕ) (r : Result A) (row : IntentRow)
        → r ≢ err cancelled
        → row.operation ≡ op.operation
        → row.status ≡ settled_status context op id (n + 1) r
        → row.attempts ≡ n + 1
        → n < max
        → Counted op.operation max (n + 1) row
    counted n (ok a) row c opr st at_ left = (opr, omega arith, λ u. let u' = (rw st at u) in cc)
    counted n (err e) row c opr st at_ left = elim (Bool-cases (is_exception e)) [
      | inl y ↦
          let st' = (rw (y, limited) at st) in
          elim (Bool-cases (ltb (n + 1) max)) [
            | inr out ↦
                let st'' = (rw out at st') in (opr, omega arith, λ u. let u' = (rw st'' at u) in cc)
            | inl more ↦ (opr, omega arith, λ u. (at_, ground (arith, more)))
          ]
      | inr n' ↦ absurd (c (ground (arith, n')))
    ]

    -- One attempt.
    pub attempted :
        (intent : Intent P) (n : ℕ) (row : IntentRow) (s : S)
        → intent.id ≡ id
        → intent.operation ≡ op.operation
        → Own row s
        → row.operation ≡ op.operation
        → row.attempts ≡ n
        → n < max
        → Stands op.operation max (n + 1) (replay_one context registry intent s).1
    unfolding replay_one Operations.replay
    attempted intent n row s same named (h, one) opr at_ left =
        let (r, run, answered, (row', held, op', st, at')) =
          execute_outcome context op id (λ t v m. (tells t v m).0) intent row s same h
            (runs intent.payload).0 in
        let ran : (replay_one context registry intent s).1 ≡ (execute context op intent s).1 =
          rw (ap (λ o. find_handler o registry) named ∙ registered, replay_one)
            (state-tried (Operations.replay context op intent) s
              ∙ state-then (execute context op intent) s) in
        let fine : r ≢ err cancelled = λ c. calm op.operation handler intent s registered (
          ap (λ (x : Result Unit × S). x.0)
            (bind-err (execute context op intent) (λ a. done) s cancelled
              (answered ∙ ap (settled_result context op id (row.attempts + 1)) c))) in
        subst (Stands op.operation max (n + 1)) (sym ran) (
          row',
          (
            held,
            (execute-Once context op id (λ t v m. (tells t v m).1) intent
                  (runs intent.payload).1).at
                s one,
          ),
          counted n r row' fine (op' ∙ opr)
              (st ∙ ap (λ k. settled_status context op id (k + 1) r) at_)
              (at' ∙ ap (λ k. k + 1) at_) left,
        )
