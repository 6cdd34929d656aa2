-- ===== src/Persistence/Database/Schema.antt =====
-- The schema that the migrations reach.
use edge_sentinel.Prelude.{
  Bool, Bool-cases, List, String, [], ap, arith, false, inl, inr, refl, true, ℕ, ◌&&◌, ◌++◌, ◌==◌,
  ◌||◌, ◌∙◌, ◌∷◌, ◌≡◌,
}
use edge_sentinel.Core.Effects.{Action, ok}
use edge_sentinel.Persistence.Database.{
  Database, apply_migrations, create_table, is_applied, migrate, with_conn,
}
use edge_sentinel.Persistence.Migrations.{Migration, migrations}

abbrev all_applied : List Migration → List (ℕ × String) → Bool
all_applied [] applied = true
all_applied (m ∷ ms) applied = is_applied m.version applied && all_applied ms applied

is_applied-append :
    (v : ℕ) (xs ys : List (ℕ × String))
    → is_applied v (xs ++ ys) ≡ (is_applied v xs || is_applied v ys)
is_applied-append v [] ys = refl
is_applied-append v ((u, n) ∷ xs) ys = ground (arith, is_applied-append v xs ys)

-- What is applied stays so.
apply_keeps :
    (v : ℕ) (seen : List (ℕ × String)) (ms : List Migration) (d : Database)
    → is_applied v d.applied ≡ true
    → is_applied v (apply_migrations seen ms d).applied ≡ true
unfolding apply_migrations
apply_keeps v seen [] d h = h
apply_keeps v seen (m ∷ ms) d h = elim (Bool-cases (is_applied m.version seen)) [
  | inl y ↦ rw (y, apply_migrations) (apply_keeps v seen ms d h)
  | inr f ↦ rw (f, apply_migrations) (apply_keeps v seen ms _ (rw (is_applied-append, h) refl))
]

and_true : (a b : Bool) → a ≡ true → b ≡ true → (a && b) ≡ true
and_true a b ha hb = ground arith

apply_reaches :
    (seen : List (ℕ × String)) (ms : List Migration) (d : Database)
    → ((v : ℕ) → is_applied v seen ≡ true → is_applied v d.applied ≡ true)
    → all_applied ms (apply_migrations seen ms d).applied ≡ true
unfolding apply_migrations
apply_reaches seen [] d h = refl
apply_reaches seen (m ∷ ms) d h = elim (Bool-cases (is_applied m.version seen)) [
  | inl y ↦
      rw (y, apply_migrations)
        (and_true _ _ (apply_keeps m.version seen ms d (h m.version y)) (apply_reaches seen ms d h))
  | inr f ↦
      let d' = record (create_table m.creates d) {
        applied = d.applied ++ ((m.version, m.name) ∷ []);
      } in
      let more : (v : ℕ)
          → is_applied v d'.applied ≡ (is_applied v d.applied || (v == m.version || false)) =
        λ v. is_applied-append v d.applied ((m.version, m.name) ∷ []) in
      rw (f, apply_migrations)
        (and_true _ _ (apply_keeps m.version seen ms d' (more m.version ∙ ground arith))
          (apply_reaches seen ms d' (λ v a. more v ∙ rw (h v a) refl)))
]

apply_connected :
    (seen : List (ℕ × String)) (ms : List Migration) (d : Database)
    → (apply_migrations seen ms d).connected ≡ d.connected
unfolding apply_migrations
apply_connected seen [] d = refl
apply_connected seen (m ∷ ms) d = elim (Bool-cases (is_applied m.version seen)) [
  | inl y ↦ rw (y, apply_migrations) (apply_connected seen ms d)
  | inr f ↦ rw (f, apply_migrations) (apply_connected seen ms _)
]

-- Where all is applied already, nothing happens.
apply_nothing :
    (seen : List (ℕ × String)) (ms : List Migration) (d : Database)
    → all_applied ms seen ≡ true
    → apply_migrations seen ms d ≡ d
unfolding apply_migrations
apply_nothing seen [] d h = refl
apply_nothing seen (m ∷ ms) d h = elim (Bool-cases (is_applied m.version seen)) [
  | inl y ↦ rw (y, apply_migrations) (apply_nothing seen ms d (ground arith))
  | inr f ↦ ground arith
]

runs :
    {A : Type 0} (m : Action Database A) (d : Database) → d.connected ≡ true → with_conn m d ≡ m d
runs m d c = rw c refl

-- On a connected database, whatever was applied to it before, `_migrate` returns with every migration
-- recorded as applied, and running it again changes nothing.
pub migrate_outcome :
    (d : Database)
    → d.connected ≡ true
    → ((migrate d).0 ≡ ok tt)
      × (all_applied migrations (migrate d).1.applied ≡ true)
      × (migrate (migrate d).1 ≡ (ok tt, (migrate d).1))
unfolding migrate
migrate_outcome d c =
    let step : Action Database Unit = λ d. (ok tt, apply_migrations d.applied migrations d) in
    let d' = apply_migrations d.applied migrations d in
    let first : migrate d ≡ (ok tt, d') = runs step d c in
    let reached = apply_reaches d.applied migrations d (λ v h. h) in
    let again : migrate d' ≡ (ok tt, d') =
      runs step d' (apply_connected d.applied migrations d ∙ c)
      ∙ ap (λ e. (ok tt, e)) (apply_nothing d'.applied migrations d' reached) in
    rw first (refl, reached, again)
