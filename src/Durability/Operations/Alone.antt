-- ===== src/Durability/Operations/Alone.antt =====
-- The replay where one operation is registered: it is cancelled only if its function is, and leaves the
-- intents alone that it does not replay.
use edge_sentinel.Durability.Operations
use edge_sentinel.Prelude.{
  Bool, Bool-cases, List, Option, String, [], false, if◌then◌else◌, inl, inr, none, some, str_eq,
  subst, true, ◌∷◌, ◌≡◌, ◌≢◌,
}
use edge_sentinel.Core.Errors.{cancelled}
use edge_sentinel.Core.Effects.{Action, catch, done, err, ok}
use edge_sentinel.Core.Events.{Severity, Value}
use edge_sentinel.Core.Effects.Calm.{IsCalm}
use edge_sentinel.Durability.Journal.{Intent}
use edge_sentinel.Durability.Operations.{Context, Handler, Operation, execute, replay_one, tell}
use edge_sentinel.Durability.Operations.Uncancelled.{replay-IsCalm}
use edge_sentinel.Durability.Operations.Attempted.{Spares}
use edge_sentinel.Durability.Operations.Replay.{IsUncancelled}
use edge_sentinel.Core.Effects.Keeps.{Keeps, Keeps-bind, Keeps-catch, Keeps-pure}
use edge_sentinel.Durability.Operations.Keys.{Once, execute-LeavesRow, execute-Once}
use edge_sentinel.Durability.Operations.Rows.{HasRow}

module _ {S P : Type 0} (context : Context S P) {A : Type 0} (op : Operation S P A) where
  abbrev pub alone : List (Handler S P)
  alone = record { operation = op.operation; replay = Operations.replay context op } ∷ []

  abbrev replay_of : Option (Handler S P) → Intent P → Action S Unit
  replay_of none intent = done
  replay_of (some h) intent = h.replay intent

  pub alone-IsUncancelled : ((payload : P) → IsCalm (op.func payload)) → IsUncancelled alone
  alone-IsUncancelled runs name h i s found = go (str_eq op.operation name) found
    where
      go :
          (b : Bool)
          → (if b
              then some (record { operation = op.operation; replay = Operations.replay context op })
              else none)
            ≡ some h
          → (h.replay i s).0 ≢ err cancelled
      go true e =
          subst (λ o. (replay_of o i s).0 ≢ err cancelled) e
            ((replay-IsCalm context op i (runs i.payload)).at s)
      go false e = cc

  -- What an attempt keeps, its replay keeps.
  tried :
      (Q : S → Type 0) (i : Intent P)
      → Keeps Q (execute context op i)
      → Keeps Q (catch (Operations.replay context op i) (λ e. done))
  unfolding Operations.replay
  tried Q i k =
      Keeps-catch (Operations.replay context op i) (λ e. done)
        (Keeps-bind (execute context op i) (λ a. done) k (λ a. Keeps-pure (ok tt)))
        (λ e. Keeps-pure (ok tt))

  module _ (id : String)
      (tells : (type : String) (severity : Severity) (metadata : List (String × Value))
        → Spares context id (tell context type severity metadata))
      (runs : (payload : P) → Spares context id (op.func payload)) where
    pub alone-Spares :
        (i : Intent P) → str_eq i.id id ≡ false → Spares context id (replay_one context alone i)
    unfolding replay_one Operations.replay
    alone-Spares i n = elim (Bool-cases (str_eq op.operation i.operation)) [
      | inl y ↦
          rw (y, replay_one)
            (
              (λ row.
                  (tried (HasRow context.holds id row) i (record {
                    at =
                        execute-LeavesRow context op id (λ t v m. (tells t v m).0) i n
                          (runs i.payload).0 row;
                  })).at),
              tried (Once context.holds id) i
                  (execute-Once context op id (λ t v m. (tells t v m).1) i (runs i.payload).1),
            )
      | inr m ↦ rw (m, replay_one) (tells _ _ _)
    ]
