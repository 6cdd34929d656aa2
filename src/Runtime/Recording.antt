-- ===== src/Runtime/Recording.antt =====
-- What the runtime's timeline has of a published event.
use mathlib.Core.List.{reverse-append}
use edge_sentinel.Runtime
use edge_sentinel.Diagnostics.Timeline
use edge_sentinel.Persistence.Database
use edge_sentinel.Prelude.{
  Bool-cases, List, String, [], ap, arith, false, if_true, inl, inr, map, none, refl, reverse, some,
  subst, sym, take, true, ℕ, ◌++◌, ◌==◌, ◌∙◌, ◌∷◌, ◌≡◌,
}
use edge_sentinel.Core.Effects.{Result, ok, pure, ◌>>=◌}
use edge_sentinel.Core.Events.{Event}
use edge_sentinel.Core.Events.Delivery.{publish-served, served}
use edge_sentinel.Runtime.{Device, Sentinel, device_database, run_handler}
use edge_sentinel.Diagnostics.Timeline.{event_to_row}
use edge_sentinel.Integrations.Subscription.History.{count}
use edge_sentinel.Persistence.Database.{Database, EventFilter, EventRow, admits, keep_events}

-- All events.
abbrev pub any_event : EventFilter
any_event = record { component = none; type = none; since = none; until = none }

-- The database with one event more, its metadata as that text.
abbrev pub with_event : String → Event → Database → Database
with_event text_ event db = record db { events = db.events ++ (event_to_row text_ event ∷ []) }

module _ {A P : Type 0} (guard : Sentinel A P) (event : Event)
    (apart : (n : ℕ) (e : Event) (d : Device A) → (guard.app_handler n e d).1.database ≡ d.database)
    (text_ : String) (encoded : guard.metadata_json.dumps event.metadata ≡ some text_)
    (decoded : guard.metadata_json.loads text_ ≡ event.metadata) where
  other_handler :
      (h : ℕ) (d : Device A)
      → (h == 0) ≡ false
      → (run_handler guard h event d).1.database ≡ d.database
  unfolding run_handler
  other_handler h d n = elim (Bool-cases (h == 1)) [
    | inl y ↦ rw (n, y) refl
    | inr m ↦ rw (n, m) (apart h event d)
  ]

  timelines_handler :
      (d : Device A)
      → d.database.connected ≡ true
      → (run_handler guard 0 event d).1.database ≡ with_event text_ event d.database
  unfolding run_handler Timeline.on_event Database.insert_event
  timelines_handler d c = rw encoded (
      ap (λ (x : Result Unit × Database). x.1)
        (if_true {A = Result Unit × Database} d.database.connected _ _ c))

  others_served :
      (hs : List ℕ) (d : Device A)
      → count 0 hs ≡ 0
      → (served (run_handler guard) hs event d).database ≡ d.database
  others_served [] d z = refl
  others_served (h ∷ hs) d z = elim (Bool-cases (h == 0)) [
    | inl y ↦ let z' = (rw y at z) in absurd (omega arith)
    | inr n ↦
        let z' = (rw n at z) in
        others_served hs (run_handler guard h event d).1 (omega arith) ∙ other_handler h d n
  ]

  all_served :
      (hs : List ℕ) (d : Device A)
      → count 0 hs ≡ 1
      → d.database.connected ≡ true
      → (served (run_handler guard) hs event d).database ≡ with_event text_ event d.database
  all_served [] d o c = cc
  all_served (h ∷ hs) d o c = elim (Bool-cases (h == 0)) [
    | inl y ↦
        let at0 : h ≡ 0 = ground arith in
        let o' = (rw y at o) in
        others_served hs (run_handler guard h event d).1 (omega arith)
        ∙ subst (λ k. (run_handler guard k event d).1.database ≡ with_event text_ event d.database)
            (sym at0) (timelines_handler d c)
    | inr n ↦
        let o' = (rw n at o) in
        let same = other_handler h d n in
        all_served hs (run_handler guard h event d).1 (omega arith)
          (ap (λ (db : Database). db.connected) same ∙ c)
        ∙ ap (with_event text_ event) same
  ]

  keeps_all : (rows : List EventRow) → keep_events (admits any_event) rows ≡ rows
  keeps_all [] = refl
  keeps_all (row ∷ rows) = ap (λ rest. row ∷ rest) (keeps_all rows)

  loads_newest :
      (db' db : Database)
      → db' ≡ with_event text_ event db
      → db.connected ≡ true
      → Database.load_events any_event 1 true db' ≡ (ok (event_to_row text_ event ∷ []), db')
  unfolding Database.load_events
  loads_newest db' db wrote c =
      let up : db'.connected ≡ true = ap (λ (d : Database). d.connected) wrote ∙ c in
      let rows : keep_events (admits any_event) db'.events
          ≡ db.events ++ (event_to_row text_ event ∷ []) =
        keeps_all db'.events ∙ ap (λ (d : Database). d.events) wrote in
      if_true {A = Result (List EventRow) × Database} db'.connected _ _ up
      ∙ ap (λ (r : List EventRow). (ok (take 1 (reverse r)), db')) rows
      ∙ ap (λ (r : List EventRow). (ok (take 1 r), db'))
          (reverse-append db.events (event_to_row text_ event ∷ []))

  newest :
      (d' : Device A) (db : Database)
      → d'.database ≡ with_event text_ event db
      → db.connected ≡ true
      → (Timeline.query device_database guard.metadata_json.loads any_event none 1 true d').0
        ≡ ok (event ∷ [])
  unfolding Timeline.query Database.load_events
  newest d' db wrote c =
      ap
        (λ (x : Result (List EventRow) × Database).
          (((λ (u : Device A). (x.0, record u { database = x.1 })) >>= (λ rows. pure (
              Timeline.filtered none 1
                (map (Timeline.row_to_event guard.metadata_json.loads) rows))))
            d').0)
        (loads_newest d'.database db wrote c)
      ∙ ap (λ m. ok ((record event { metadata = m }) ∷ [])) decoded

  -- An event that is published on the runtime's bus, while the database is open and the timeline's handler is
  -- once on the bus, is added to the database's events with the text of its metadata, once and with nothing else
  -- changed, whatever the other handlers raise and in whatever order they come; and it is what a query for the
  -- newest event returns. Its metadata is assumed to be such that json encodes it and gives it back, and
  -- the application's handlers are assumed not to write to the database.
  pub published_is_recorded :
      (d : Device A)
      → d.database.connected ≡ true
      → count 0 d.bus.handlers ≡ 1
      → (let d' = (Runtime.bus guard).deliver event d in
          (d'.database ≡ with_event text_ event d.database)
          × ((Timeline.query device_database guard.metadata_json.loads any_event none 1 true d').0
              ≡ ok (event ∷ [])))
  unfolding Runtime.bus
  published_is_recorded d c once =
      let d' = (Runtime.bus guard).deliver event d in
      let wrote : d'.database ≡ with_event text_ event d.database =
        ap (λ (e : Device A). e.database) (publish-served (run_handler guard) d.bus event d)
        ∙ all_served d.bus.handlers d once c in
      (wrote, newest d' d.database wrote c)

module _ {A P : Type 0} (guard : Sentinel A P) (event : Event)
    (apart : (n : ℕ) (e : Event) (d : Device A) → (guard.app_handler n e d).1.database ≡ d.database)
    (lost : guard.metadata_json.dumps event.metadata ≡ none) where
  any_handler : (h : ℕ) (d : Device A) → (run_handler guard h event d).1.database ≡ d.database
  unfolding run_handler Timeline.on_event
  any_handler h d = elim (Bool-cases (h == 0)) [
    | inl y ↦ rw (y, lost) refl
    | inr n ↦ elim (Bool-cases (h == 1)) [
      | inl y ↦ rw (n, y) refl
      | inr m ↦ rw (n, m) (apart h event d)
    ]
  ]

  none_served :
      (hs : List ℕ) (d : Device A) → (served (run_handler guard) hs event d).database ≡ d.database
  none_served [] d = refl
  none_served (h ∷ hs) d = none_served hs (run_handler guard h event d).1 ∙ any_handler h d

  -- An event whose metadata json cannot encode is not recorded: its publication leaves the database as it was,
  -- whichever handlers are on the bus, the timeline's included. The application's handlers are assumed
  -- not to write to the database.
  pub unencodable_is_lost :
      (d : Device A) → ((Runtime.bus guard).deliver event d).database ≡ d.database
  unfolding Runtime.bus
  unencodable_is_lost d =
      ap (λ (e : Device A). e.database) (publish-served (run_handler guard) d.bus event d)
      ∙ none_served d.bus.handlers d
