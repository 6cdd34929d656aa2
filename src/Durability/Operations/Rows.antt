-- ===== src/Durability/Operations/Rows.antt =====
-- What the journal's calls do to the row of one intent.
use edge_sentinel.Durability.Journal
use edge_sentinel.Persistence.Database
use edge_sentinel.Prelude.{
  Bool-cases, List, Option, String, [], ap, arith, inl, inr, refl, some, str_eq, subst, sym, true,
  ℕ, ◌+◌, ◌∙◌, ◌∷◌, ◌≡◌,
}
use edge_sentinel.Core.Errors.{key_error}
use edge_sentinel.Core.Effects.{Action, Result, ok, pure, ◌>>=◌, ◌>>◌}
use edge_sentinel.Core.Effects.Laws.{bind-ok}
use edge_sentinel.Durability.Journal.{Holds, Intent, Json, on_db, row_to_intent}
use edge_sentinel.Persistence.Database.{
  Database, IntentRow, IntentStatus, find_intent, in_progress, set_intent, update_rows,
}

-- The database is open and has this row for the intent.
abbrev pub HasRow : {S : Type 0} → Holds S → String → IntentRow → S → Type 0
HasRow holds id row s =
    ((holds.get s).connected ≡ true) × (find_intent id (holds.get s).intents ≡ some row)

-- A call that leaves the intent's row, whatever it is, and the connection alone.
abbrev pub LeavesRow : {S A : Type 0} → Holds S → String → Action S A → Type 0
LeavesRow {S} holds id m =
    (row : IntentRow) (s : S) → HasRow holds id row s → HasRow holds id row (m s).1

-- An update of the row that has the identifier.
find-update_rows :
    (id : String) (status : IntentStatus) (attempts : ℕ) (last_error : Option String) (now : ℕ)
    (rows : List IntentRow) (row : IntentRow)
    → find_intent id rows ≡ some row
    → find_intent id (update_rows (set_intent id status attempts last_error now) rows)
      ≡ some (record row {
        status = status;
        attempts = attempts;
        last_error = last_error;
        updated_at = now;
      })
find-update_rows id status attempts last_error now [] row h = ground arith
find-update_rows id status attempts last_error now (r ∷ rows) row h =
    elim (Bool-cases (str_eq r.id id)) [
      | inl y ↦ let h' : some r ≡ some row = (rw y at h) in rw (y, y) (ground arith)
      | inr n ↦
          let h' = (rw n at h) in
          rw (n, n) (find-update_rows id status attempts last_error now rows row h')
    ]

module _ {S P : Type 0} (holds : Holds S) (json : Json P) (id : String) where
  load_row :
      (row : IntentRow) (s : S)
      → HasRow holds id row s
      → on_db holds (Database.load_intent id) s ≡ (ok (some row), holds.put (holds.get s) s)
  unfolding Database.load_intent
  load_row row s (c, f) = rw (c, f) refl

  require_row :
      (row : IntentRow) (s : S)
      → HasRow holds id row s
      → ((Journal.require holds json id s).0 ≡ ok (row_to_intent json row))
        × HasRow holds id row (Journal.require holds json id s).1
  unfolding Journal.require Journal.get
  require_row row s (c, f) =
      let t = holds.put (holds.get s) s in
      let loaded = load_row row s (c, f) in
      let got : Journal.get holds json id s ≡ (ok (some (row_to_intent json row)), t) =
        bind-ok (on_db holds (Database.load_intent id))
          (λ row. pure (Journal.intent_of holds json row)) s (some row)
          (ap (λ (x : Result (Option IntentRow) × S). x.0) loaded)
        ∙ ap (λ (x : Result (Option IntentRow) × S). (ok (some (row_to_intent json row)), x.1))
            loaded in
      let all : Journal.require holds json id s ≡ (ok (row_to_intent json row), t) =
        bind-ok (Journal.get holds json id) (λ found. Journal.or_raise holds json key_error found) s
          (some (row_to_intent json row)) (ap (λ (x : Result (Option (Intent P)) × S). x.0) got)
        ∙ ap (λ (x : Result (Option (Intent P)) × S). (ok (row_to_intent json row), x.1)) got in
      rw (all, holds.get-put (holds.get s) s) (refl, (c, f))

  -- An update after a `require`, as the four `mark_` methods do it.
  abbrev pub Marked : String → IntentStatus → ℕ → S → Type 0
  Marked operation status attempts s =
      (row : IntentRow) × HasRow holds id row s
      × (row.operation ≡ operation)
      × (row.status ≡ status)
      × (row.attempts ≡ attempts)

  abbrev updated : IntentStatus → ℕ → Option String → Database → Database
  updated status attempts last_error d = record d {
    intents = update_rows (set_intent id status attempts last_error d.now) d.intents;
  }

  update_run :
      (status : IntentStatus) (attempts : ℕ) (last_error : Option String) (s : S)
      → (holds.get s).connected ≡ true
      → on_db holds (Database.update_intent id status attempts last_error) s
        ≡ (ok tt, holds.put (updated status attempts last_error (holds.get s)) s)
  unfolding Database.update_intent
  update_run status attempts last_error s c = rw c refl

  update_row :
      (status : IntentStatus) (attempts : ℕ) (last_error : Option String) (row : IntentRow) (s : S)
      → HasRow holds id row s
      → (let m : Action S Unit =
            on_db holds (Database.update_intent id status attempts last_error) in
          ((m s).0 ≡ ok tt) × Marked row.operation status attempts (m s).1)
  update_row status attempts last_error row s (c, f) =
      let d = holds.get s in
      let d' = updated status attempts last_error d in
      let row' = record row {
        status = status;
        attempts = attempts;
        last_error = last_error;
        updated_at = d.now;
      } in
      let there : HasRow holds id row' (holds.put d' s) =
        rw (holds.get-put d' s)
          (c, find-update_rows id status attempts last_error d.now d.intents row f) in
      let run = update_run status attempts last_error s c in
      (
        ap (λ (x : Result Unit × S). x.0) run,
        (
          row',
          subst (λ (x : Result Unit × S). HasRow holds id row' x.1) (sym run) there,
          refl,
          refl,
          refl,
        ),
      )

  -- The read and the update of the `mark_` methods.
  pub mark_row :
      (status : IntentStatus) (attempts : Intent P → ℕ) (last_error : Intent P → Option String)
      (row : IntentRow) (s : S)
      → HasRow holds id row s
      → (let m : Action S Unit = (do
        current ← Journal.require holds json id
        on_db holds (Database.update_intent id status (attempts current) (last_error current))) in
          ((m s).0 ≡ ok tt)
          × Marked row.operation status (attempts (row_to_intent json row)) (m s).1)
  mark_row status attempts last_error row s h =
      let intent = row_to_intent json row in
      let (found, there) = require_row row s h in
      let s' = (Journal.require holds json id s).1 in
      rw
        (bind-ok (Journal.require holds json id)
          (λ current.
            on_db holds (Database.update_intent id status (attempts current) (last_error current)))
          s intent found)
        (update_row status (attempts intent) (last_error intent) row s' there)

  -- An attempt is counted before it is made.
  pub mark_in_progress_row :
      (row : IntentRow) (s : S)
      → HasRow holds id row s
      → ((intent : Intent P) × ((Journal.mark_in_progress holds json id s).0 ≡ ok intent)
          × (intent.attempts ≡ row.attempts + 1))
        × Marked row.operation in_progress
            (row.attempts + 1)
            (Journal.mark_in_progress holds json id s).1
  unfolding Journal.mark_in_progress
  mark_in_progress_row row s h =
      let intent = row_to_intent json row in
      let (found, there) = require_row row s h in
      let s' = (Journal.require holds json id s).1 in
      let (wrote, marks) =
        update_row in_progress (intent.attempts + 1) intent.last_error row s' there in
      rw
        (
          bind-ok (Journal.require holds json id) after s intent found,
          bind-ok
              (on_db holds
                (Database.update_intent id in_progress (intent.attempts + 1) intent.last_error))
              (λ u. pure (record intent { status = in_progress; attempts = intent.attempts + 1 }))
              s' tt wrote,
        )
        ((_, refl, refl), marks)
    where
      after : Intent P → Action S (Intent P)
      after current = do
        on_db holds
            (Database.update_intent id in_progress (current.attempts + 1) current.last_error)
        pure (record current { status = in_progress; attempts = current.attempts + 1 })
