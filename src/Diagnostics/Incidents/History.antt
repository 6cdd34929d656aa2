-- ===== src/Diagnostics/Incidents/History.antt =====
-- The tracker's bounded history, against the incidents built from the whole stream.
use edge_sentinel.Prelude.{
  Bool, Bool-cases, List, Option, [], ap, arith, drop, false, inl, inr, leb, length, length-append,
  length-drop, none, refl, some, suc, sym, true, zero, ℕ, ◌++◌, ◌-◌, ◌∙◌, ◌∷◌, ◌≡◌, ◌≤◌, ◌⊎◌,
}
use edge_sentinel.Core.States.{state_mem}
use edge_sentinel.Core.Errors.{Error}
use edge_sentinel.Core.Effects.{Result, err, ok}
use edge_sentinel.Core.Events.{Event}
use edge_sentinel.Core.Effects.Laws.{Result-split}
use edge_sentinel.Diagnostics.Incidents.{
  Builder, Incident, OpenIncident, Tracker, bound, change, create, current_of, empty, feed,
  incident_states, incidents, is_change, on_event,
}

-- The events, one after another, as the bus delivers them.
pub observe_all : List Event → Tracker → Tracker
observe_all [] t = t
observe_all (e ∷ es) t = observe_all es (on_event e t).1

pub feed_each : List Event → Builder → Builder
feed_each [] b = b
feed_each (e ∷ es) b = feed_each es (feed e b).1

drop-one :
    (k : ℕ) (xs : List Incident) (x : Incident)
    → k ≤ length xs
    → drop 1 (drop k xs ++ (x ∷ [])) ≡ drop (suc k) (xs ++ (x ∷ []))
drop-one zero xs x h = refl
drop-one (suc k) [] x h = ground arith
drop-one (suc k) (y ∷ ys) x h = drop-one k ys x (omega (arith, h))

abbrev at_ : List Incident → Option OpenIncident → Builder
at_ xs o = record { closed = xs; open_ = o }

-- Both unchanged, or both with the one incident that the event closed.
abbrev Grow : Event → Option OpenIncident → List Incident → List Incident → Type 0
Grow e o xs ys =
    (((feed e (at_ xs o)).1.closed ≡ xs) × ((feed e (at_ ys o)).1.closed ≡ ys))
    ⊎ ((i : Incident) × ((feed e (at_ xs o)).0 ≡ ok tt)
        × ((feed e (at_ xs o)).1.closed ≡ xs ++ (i ∷ []))
        × ((feed e (at_ ys o)).1.closed ≡ ys ++ (i ∷ [])))

-- An event acts the same on builders with the same open incident.
feed_same :
    (e : Event) (o : Option OpenIncident) (xs ys : List Incident)
    → ((feed e (at_ xs o)).0 ≡ (feed e (at_ ys o)).0)
      × ((feed e (at_ xs o)).1.open_ ≡ (feed e (at_ ys o)).1.open_)
      × Grow e o xs ys
unfolding feed change
feed_same e none xs ys = elim (Bool-cases (is_change e)) [
  | inr other ↦ rw other (refl, refl, inl (refl, refl))
  | inl is ↦ elim (Result-split (current_of e)) [
    | inr (x, bad) ↦ rw (is, bad) (refl, refl, inl (refl, refl))
    | inl (s, good) ↦ elim (Bool-cases (state_mem s incident_states)) [
      | inl y ↦ rw (is, good, y) (refl, refl, inl (refl, refl))
      | inr n ↦ rw (is, good, n) (refl, refl, inl (refl, refl))
    ]
  ]
]
feed_same e (some o) xs ys = elim (Bool-cases (is_change e)) [
  | inr other ↦ rw other (refl, refl, inl (refl, refl))
  | inl is ↦ elim (Result-split (current_of e)) [
    | inr (x, bad) ↦ rw (is, bad) (refl, refl, inl (refl, refl))
    | inl (s, good) ↦ elim (Bool-cases (state_mem s incident_states)) [
      | inl y ↦ rw (is, good, y) (refl, refl, inl (refl, refl))
      | inr n ↦ rw (is, good, n) (refl, refl, inr (_, refl, refl, refl))
    ]
  ]
]

le→zero : (a b : ℕ) → leb a b ≡ true → a - b ≡ 0
le→zero a b h = ground arith

-- The bound, before or after an addition.
bound_append :
    (m : ℕ) (xs : List Incident) (x : Incident)
    → (let ys = drop (length xs - m) xs in
        drop (length (ys ++ (x ∷ [])) - m) (ys ++ (x ∷ []))
        ≡ drop (length (xs ++ (x ∷ [])) - m) (xs ++ (x ∷ [])))
bound_append m xs x = elim (Bool-cases (leb (length xs) m)) [
  | inl small ↦ rw (le→zero (length xs) m small) refl
  | inr big ↦
      let k : ℕ = length xs - m in
      let ys = drop k xs in
      let one : length (ys ++ (x ∷ [])) - m ≡ 1 =
        ground (arith, length-append ys (x ∷ []), length-drop k xs) in
      let more : length (xs ++ (x ∷ [])) - m ≡ suc k = ground (arith, length-append xs (x ∷ [])) in
      rw (one, more) (drop-one k xs x (omega arith))
]

bound_twice :
    (m : ℕ) (xs : List Incident)
    → (let ys = drop (length xs - m) xs in drop (length ys - m) ys ≡ ys)
bound_twice m xs =
    let zero_ : length (drop (length xs - m) xs) - m ≡ 0 =
      omega (arith, length-drop (length xs - m) xs) in
    rw zero_ refl

same_builder : (b c : Builder) → b.closed ≡ c.closed → b.open_ ≡ c.open_ → b ≡ c
same_builder b c p q = cc

-- Feeding the bounded builder.
bound-feed :
    (e : Event) (m : ℕ) (b : Builder)
    → (bound m (feed e (bound m b)).1 ≡ bound m (feed e b).1)
      × ((x : Error)
          → (feed e (bound m b)).0 ≡ err x
          → (feed e (bound m b)).1 ≡ bound m (feed e b).1)
bound-feed e m b =
    let xs = b.closed in
    let ys = drop (length xs - m) xs in
    let (r, o, grows) = feed_same e b.open_ xs ys in
    elim grows [
      | inl (p, q) ↦ (
        same_builder _ _ (rw (p, q) (bound_twice m xs)) (sym o),
        λ x bad. same_builder _ _ (rw (p, q) refl) (sym o),
      )
      | inr (i, good, p, q) ↦ (
        same_builder _ _ (rw (p, q) (bound_append m xs i)) (sym o),
        λ x bad. absurd (ok_err x (sym good ∙ r ∙ bad)),
      )
    ]
  where
    ok_err : (x : Error) → (let r : Result Unit = ok tt in r) ≡ err x → ⊥
    ok_err x h = cc

-- What the tracker makes of the builder after an event.
kept :
    (m : ℕ) (attached : Bool) (r : Result Unit) (b c : Builder)
    → bound m b ≡ c
    → ((x : Error) → r ≡ err x → b ≡ c)
    → (let t : Result Unit × Tracker = elim r [
      | ok u ↦ (ok tt, record { max_history = m; builder = bound m b; attached = attached })
      | err x ↦ (err x, record { max_history = m; builder = b; attached = attached })
    ] in
        (t.1.builder ≡ c) × (t.1.max_history ≡ m))
kept m attached (ok u) b c p q = (p, refl)
kept m attached (err x) b c p q = (q x refl, refl)

-- One event, on a tracker whose builder is the bounded one.
on_event_matches :
    (e : Event) (t : Tracker) (b : Builder)
    → t.builder ≡ bound t.max_history b
    → ((on_event e t).1.builder ≡ bound t.max_history (feed e b).1)
      × ((on_event e t).1.max_history ≡ t.max_history)
unfolding on_event
on_event_matches e t b h =
    let (p, q) = bound-feed e t.max_history b in
    kept t.max_history t.attached (feed e t.builder).0 (feed e t.builder).1
      (bound t.max_history (feed e b).1) (ap (λ x. bound t.max_history (feed e x).1) h ∙ p)
      (λ x bad. ap (λ c. (feed e c).1) h ∙ q x (ap (λ c. (feed e c).0) (sym h) ∙ bad))

observe_all_matches :
    (es : List Event) (t : Tracker) (b : Builder)
    → t.builder ≡ bound t.max_history b
    → (observe_all es t).builder ≡ bound t.max_history (feed_each es b)
unfolding observe_all feed_each
observe_all_matches [] t b h = h
observe_all_matches (e ∷ es) t b h =
    let (p, q) = on_event_matches e t b h in
    observe_all_matches es (on_event e t).1 (feed e b).1
      (p ∙ ap (λ m. bound m (feed e b).1) (sym q))
    ∙ ap (λ m. bound m (feed_each es (feed e b).1)) q

-- A tracker created with a bound, after any events, holds the last closed incidents of the whole
-- stream, as many as its bound allows, and the same open incident. Dropping the oldest as it goes
-- loses nothing else, and an event that raises is no exception. The history never exceeds the bound.
pub tracker_history :
    (m : ℕ) (t : Tracker) (es : List Event)
    → create m ≡ ok t
    → (incidents (observe_all es t)
        ≡ drop (length (feed_each es empty).closed - m) (feed_each es empty).closed)
      × ((observe_all es t).builder.open_ ≡ (feed_each es empty).open_)
      × (length (incidents (observe_all es t)) ≤ m)
unfolding create incidents
tracker_history m t es h =
    let fresh : t ≡ record { max_history = m; builder = empty; attached = false } = ground arith in
    let nothing : 0 - m ≡ 0 = omega arith in
    let all = observe_all_matches es t empty (rw fresh (rw nothing refl)) in
    let same : t.max_history ≡ m = rw fresh refl in
    let closed = (feed_each es empty).closed in
    let kept : incidents (observe_all es t) ≡ drop (length closed - m) closed =
      ap (λ b. b.closed) all ∙ rw same refl in
    (kept, ap (λ b. b.open_) all, rw kept (omega (arith, length-drop (length closed - m) closed)))
