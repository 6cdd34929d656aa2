-- ===== src/Durability/Operations/Replay.antt =====
-- The replay at startup returns, with every unfinished intent tried.
use edge_sentinel.Durability.Journal
use edge_sentinel.Persistence.Database
use edge_sentinel.Prelude.{
  Bool, List, Option-cases, String, [], ap, arith, false, if_true, if◌then◌else◌, inl, inr, map,
  none, refl, some, true, ◌∙◌, ◌∷◌, ◌≡◌, ◌≢◌,
}
use edge_sentinel.Core.Errors.{cancelled}
use edge_sentinel.Core.Effects.{Action, Result, catch, done, err, ok, pure, ◌>>=◌}
use edge_sentinel.Core.Events.{Severity, text}
use edge_sentinel.Core.Effects.Laws.{Result-cases, bind-ok, state-tried}
use edge_sentinel.Durability.Operations.{
  Context, Handler, find_handler, replay_all, replay_one, replay_pending, tell,
}
use edge_sentinel.Persistence.Database.{
  Database, IntentRow, IntentStatus, completed, failed_, in_progress, is_unfinished, keep_rows,
  pending,
}
use edge_sentinel.Durability.Journal.{Intent, row_to_intent}
use edge_sentinel.Core.Events.Laws.{emit_ok}

-- None of the registered handlers is cancelled.
abbrev pub IsUncancelled : {S P : Type 0} → List (Handler S P) → Type 0
IsUncancelled {S} {P} registry =
    (name : String) (h : Handler S P) (i : Intent P) (s : S)
    → find_handler name registry ≡ some h
    → (h.replay i s).0 ≢ err cancelled

abbrev is_waiting : IntentStatus → Bool
is_waiting pending = true
is_waiting in_progress = true
is_waiting completed = false
is_waiting failed_ = false

-- The rows that are PENDING or IN_PROGRESS, in their order.
abbrev pub waiting : List IntentRow → List IntentRow
waiting [] = []
waiting (row ∷ rows) = if is_waiting row.status then row ∷ waiting rows else waiting rows

is_waiting_lem :
    (row : IntentRow) (status : IntentStatus)
    → is_unfinished (record row { status = status }) ≡ is_waiting status
is_waiting_lem row pending = refl
is_waiting_lem row in_progress = refl
is_waiting_lem row completed = refl
is_waiting_lem row failed_ = refl

waiting_lem : (rows : List IntentRow) → keep_rows is_unfinished rows ≡ waiting rows
waiting_lem [] = refl
waiting_lem (row ∷ rows) =
    ap (λ b. if b then row ∷ keep_rows is_unfinished rows else keep_rows is_unfinished rows)
      (is_waiting_lem row row.status)
    ∙ ap (λ rs. if is_waiting row.status then row ∷ rs else rs) (waiting_lem rows)

module _ {S P : Type 0} (context : Context S P) (registry : List (Handler S P)) where
  pub replays_rows :
      (s : S)
      → (context.holds.get s).connected ≡ true
      → replay_pending context registry s
        ≡ replay_all context registry
            (map
              (row_to_intent context.json)
              (keep_rows is_unfinished (context.holds.get s).intents))
            (context.holds.put (context.holds.get s) s)
  unfolding replay_pending Journal.unfinished Database.load_unfinished_intents
  replays_rows s c =
      ap
        (λ (x : Result (List IntentRow) × Database).
          (((λ t. (x.0, context.holds.put x.1 t))
                >>= (λ rows. pure (map (row_to_intent context.json) rows)))
              >>= (λ intents. replay_all context registry intents))
            s)
        (if_true {A = Result (List IntentRow) × Database} (context.holds.get s).connected _ _ c)

  -- What is left by the replay of intents, one after another, each by its handler, however that ended, or
  -- by an event where none is registered.
  abbrev pub replayed_each : List (Intent P) → S → S
  replayed_each [] s = s
  replayed_each (intent ∷ rest) s =
      replayed_each rest (elim (find_handler intent.operation registry) [
        | none ↦
            (tell context "durable_operation_unhandled" Severity.warning
              (("operation", text intent.operation) ∷ ("intent_id", text intent.id) ∷ []) s).1
        | some handler ↦ (handler.replay intent s).1
      ])

module _ {S P : Type 0} (context : Context S P) (registry : List (Handler S P))
    (calm : IsUncancelled registry) where
  caught : (m : Action S Unit) (s : S) → (m s).0 ≢ err cancelled → (catch m (λ e. done) s).0 ≡ ok tt
  caught m s n = elim (Result-cases (m s).0) [
    | inl (u, e) ↦ ground arith
    | inr (inl (x, e, ex)) ↦ ground arith
    | inr (inr c) ↦ absurd (n c)
  ]

  pub replay_one_returns :
      (intent : Intent P) (s : S) → (replay_one context registry intent s).0 ≡ ok tt
  unfolding replay_one
  replay_one_returns intent s = elim (Option-cases (find_handler intent.operation registry)) [
    | inl n ↦ rw (n, replay_one) (emit_ok context.events _ context.component _ _ s)
    | inr (h, y) ↦
        rw (y, replay_one) (caught (h.replay intent) s (calm intent.operation h intent s y))
  ]

  replay_one_leaves :
      (intent : Intent P) (rest : List (Intent P)) (s : S)
      → replayed_each context registry rest (replay_one context registry intent s).1
        ≡ replayed_each context registry (intent ∷ rest) s
  unfolding replay_one
  replay_one_leaves intent rest s = elim (Option-cases (find_handler intent.operation registry)) [
    | inl n ↦ rw (n, replay_one) refl
    | inr (h, y) ↦
        rw (y, replay_one)
          (ap (replayed_each context registry rest) (state-tried (h.replay intent) s))
  ]

  replay_all_outcome :
      (intents : List (Intent P)) (s : S)
      → replay_all context registry intents s ≡ (ok tt, replayed_each context registry intents s)
  unfolding replay_all
  replay_all_outcome [] s = refl
  replay_all_outcome (intent ∷ rest) s =
      bind-ok (replay_one context registry intent) (λ u. replay_all context registry rest) s tt
        (replay_one_returns intent s)
      ∙ replay_all_outcome rest (replay_one context registry intent s).1
      ∙ ap (λ t. (ok tt, t)) (replay_one_leaves intent rest s)

  -- The replay of unfinished intents on a connected database returns, and has tried every intent that was
  -- PENDING or IN_PROGRESS once, in their order, whatever the earlier ones raised, exhausted attempts
  -- included; an intent whose operation is not registered costs an event. Every handler is assumed to
  -- return or to raise, and not to be cancelled, and every stored payload to be one that json gives back.
  pub replay_pending_returns :
      (s : S)
      → (context.holds.get s).connected ≡ true
      → replay_pending context registry s ≡ (
        ok tt,
        replayed_each context registry
            (map (row_to_intent context.json) (waiting (context.holds.get s).intents))
            (context.holds.put (context.holds.get s) s),
      )
  replay_pending_returns s c =
      let start = context.holds.put (context.holds.get s) s in
      replays_rows context registry s c
      ∙ replay_all_outcome _ start
      ∙ ap
          (λ rows.
            (ok tt, replayed_each context registry (map (row_to_intent context.json) rows) start))
          (waiting_lem (context.holds.get s).intents)
