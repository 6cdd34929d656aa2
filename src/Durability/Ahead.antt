-- ===== src/Durability/Ahead.antt =====
-- The journal is written ahead: what is recorded is found again.
use edge_sentinel.Durability.Journal
use edge_sentinel.Persistence.Database
use edge_sentinel.Prelude.{
  Bool, Bool-cases, List, Option, String, [], ap, arith, eq_iff, if_true, inl, inr, map, none, refl,
  some, str_eq, true, ℕ, ◌++◌, ◌∙◌, ◌∷◌, ◌≡◌,
}
use edge_sentinel.Core.Errors.{invalid_durable_payload, runtime_error}
use edge_sentinel.Core.Effects.{Action, Result, ok, pure, ◌>>=◌, ◌>>◌}
use edge_sentinel.Durability.Journal.{
  Holds, Intent, Json, on_db, or_raise, record_intent, row_to_intent, unfinished,
}
use edge_sentinel.Persistence.Database.{
  Database, IntentRow, find_intent, is_unfinished, keep_rows, pending,
}
use edge_sentinel.Core.Effects.Laws.{bind-ok}

find-append :
    (id : String) (rows : List IntentRow) (row : IntentRow)
    → find_intent id rows ≡ none
    → row.id ≡ id
    → find_intent id (rows ++ (row ∷ [])) ≡ some row
find-append id [] row h e = ground (arith, eq_iff row.id id)
find-append id (r ∷ rows) row h e = elim (Bool-cases (str_eq r.id id)) [
  | inl same ↦ let h' = (rw same at h) in cc
  | inr other ↦ rw other (find-append id rows row (rw other at h) e)
]

keep-append :
    (p : IntentRow → Bool) (rows : List IntentRow) (row : IntentRow)
    → p row ≡ true
    → keep_rows p (rows ++ (row ∷ [])) ≡ keep_rows p rows ++ (row ∷ [])
keep-append p [] row h = rw h refl
keep-append p (r ∷ rows) row h = elim (Bool-cases (p r)) [
  | inl kept ↦ rw kept (ap (λ xs. r ∷ xs) (keep-append p rows row h))
  | inr left ↦ rw left (keep-append p rows row h)
]

map-append : {A B : Type 0} (f : A → B) (xs ys : List A) → map f (xs ++ ys) ≡ map f xs ++ map f ys
map-append f [] ys = refl
map-append f (x ∷ xs) ys = ap (λ zs. f x ∷ zs) (map-append f xs ys)

module _ {S P : Type 0} (holds : Holds S) (json : Json P) (id operation text_ : String)
    (payload : P) where
  -- The row of a new intent, the database with it, and the intent as it is read back.
  abbrev new_row : ℕ → IntentRow
  new_row now = record {
    id = id;
    operation = operation;
    payload = text_;
    status = pending;
    attempts = 0;
    last_error = none;
    created_at = now;
    updated_at = now;
  }

  abbrev with_row : Database → Database
  with_row d = record d { intents = d.intents ++ (new_row d.now ∷ []) }

  abbrev pub new_intent : ℕ → Intent P
  new_intent now = record {
    id = id;
    operation = operation;
    payload = payload;
    status = pending;
    attempts = 0;
    last_error = none;
    created_at = now;
    updated_at = now;
  }

  inserts :
      (d : Database)
      → d.connected ≡ true
      → find_intent id d.intents ≡ none
      → Database.insert_intent id operation text_ d ≡ (ok tt, with_row d)
  unfolding Database.insert_intent
  inserts d up fresh = if_true d.connected _ _ up ∙ rw fresh refl

  found :
      (d : Database)
      → d.connected ≡ true
      → find_intent id d.intents ≡ none
      → Database.load_intent id (with_row d) ≡ (ok (some (new_row d.now)), with_row d)
  unfolding Database.load_intent
  found d up fresh =
      if_true d.connected _ _ up
      ∙ ap (λ o. (ok o, with_row d)) (find-append id d.intents (new_row d.now) fresh refl)

  read_back :
      (now : ℕ) → json.loads text_ ≡ payload → row_to_intent json (new_row now) ≡ new_intent now
  read_back now loaded = ap (λ p. record (new_intent now) { payload = p }) loaded

  -- The state with the row, and after it is read again.
  abbrev inserted : S → S
  inserted s = holds.put (with_row (holds.get s)) s

  abbrev read_again : S → S
  read_again s = holds.put (with_row (holds.get s)) (inserted s)

  on_db_lem :
      {A : Type 0} (m : Action Database A) (s : S) (d : Database) (x : Result A × Database)
      → holds.get s ≡ d
      → m d ≡ x
      → on_db holds m s ≡ (x.0, holds.put x.1 s)
  on_db_lem {A} m s d x here does =
      ap (λ (y : Result A × Database). (y.0, holds.put y.1 s)) (ap m here ∙ does)

  records :
      (s : S)
      → (holds.get s).connected ≡ true
      → find_intent id (holds.get s).intents ≡ none
      → json.dumps payload ≡ some text_
      → json.loads text_ ≡ payload
      → record_intent holds json id operation payload s
        ≡ (ok (new_intent (holds.get s).now), read_again s)
  unfolding record_intent Journal.get
  records s up fresh dumped loaded =
      let d = holds.get s in
      let look : Action S (Intent P) =
        Journal.get holds json id >>= (λ o. or_raise holds json runtime_error o) in
      let write : String → Action S (Intent P) =
        λ t. on_db holds (Database.insert_intent id operation t) >> look in
      let one =
        on_db_lem (Database.insert_intent id operation text_) s d (ok tt, with_row d) refl
          (inserts d up fresh) in
      let two =
        on_db_lem (Database.load_intent id) (inserted s) (with_row d)
          (ok (some (new_row d.now)), with_row d) (holds.get-put (with_row d) s)
          (found d up fresh) in
      ap (λ o. (or_raise holds json invalid_durable_payload o >>= write) s) dumped
      ∙ bind-ok (on_db holds (Database.insert_intent id operation text_)) (λ _. look) s tt
          (ap (λ (x : Result Unit × S). x.0) one)
      ∙ ap (λ (x : Result Unit × S). look x.1) one
      ∙ ap
          (λ (x : Result (Option IntentRow) × S).
            (((λ u. x) >>= (λ row. pure (Journal.intent_of holds json row)))
                >>= (λ o. or_raise holds json runtime_error o))
              (inserted s))
          two
      ∙ ap (λ i. (ok i, read_again s)) (read_back d.now loaded)

  unfinished_lem :
      (s : S)
      → (holds.get s).connected ≡ true
      → json.loads text_ ≡ payload
      → (unfinished holds json (read_again s)).0
        ≡ ok (
            map (row_to_intent json) (keep_rows is_unfinished (holds.get s).intents)
            ++ (new_intent (holds.get s).now ∷ []))
  unfolding unfinished Database.load_unfinished_intents
  unfinished_lem s up loaded =
      let d = holds.get s in
      let rows = keep_rows is_unfinished (with_row d).intents in
      let one =
        on_db_lem Database.load_unfinished_intents (read_again s) (with_row d) (ok rows, with_row d)
          (holds.get-put (with_row d) (inserted s)) (if_true d.connected _ _ up) in
      ap
        (λ (x : Result (List IntentRow) × S).
          (((λ u. x) >>= (λ rs. pure (map (row_to_intent json) rs))) (read_again s)).0)
        one
      ∙ ap (λ rs. ok (map (row_to_intent json) rs))
          (keep-append is_unfinished d.intents (new_row d.now) refl)
      ∙ ap ok
          (map-append (row_to_intent json) (keep_rows is_unfinished d.intents) (new_row d.now ∷ []))
      ∙ ap (λ i. ok (map (row_to_intent json) (keep_rows is_unfinished d.intents) ++ (i ∷ [])))
          (read_back d.now loaded)

  -- Recording an intent with a new identifier on a connected database returns it, PENDING, with no attempts
  -- and the very arguments of the call, if JSON gives back what it is given; and the intents that a
  -- later start will replay are those from before and then this one.
  pub record_intent_outcome :
      (s : S)
      → (holds.get s).connected ≡ true
      → find_intent id (holds.get s).intents ≡ none
      → json.dumps payload ≡ some text_
      → json.loads text_ ≡ payload
      → ((record_intent holds json id operation payload s).0 ≡ ok (new_intent (holds.get s).now))
        × ((unfinished holds json (record_intent holds json id operation payload s).1).0
            ≡ ok (
                map (row_to_intent json) (keep_rows is_unfinished (holds.get s).intents)
                ++ (new_intent (holds.get s).now ∷ [])))
  record_intent_outcome s up fresh dumped loaded =
      rw (records s up fresh dumped loaded) (refl, unfinished_lem s up loaded)
