-- ===== src/Persistence/Breakers.antt =====
-- The database as the store of circuit breakers: src/edgesentinel/persistence/database.py behind the
-- `CircuitBreakerStore` of src/edgesentinel/resilience/circuit_breaker.py.
use edge_sentinel.Prelude.{
  All, List, Option, String, [], ap, arith, eq_iff, if_true, refl, some, true, ℕ, ◌+◌, ◌<◌, ◌∙◌,
  ◌∷◌, ◌≡◌, ◌≢◌,
}
use edge_sentinel.Core.Effects.{Action, Result, modify, ok, ◌>>=◌}
use edge_sentinel.Resilience.Breaker.{
  Breaker, Clock, Config, Saved, Store, adopt, adopt_if, open_, outside, persist, restore, snapshot,
}
use edge_sentinel.Durability.Journal.{Holds, on_db}
use edge_sentinel.Persistence.Database.{
  Database, find_saved, load_circuit_breaker_state, save_circuit_breaker_state, upsert,
}
use edge_sentinel.Resilience.Breaker.Restore.{restore_of_snapshot}

-- `save_circuit_breaker_state` and `load_circuit_breaker_state`, of a database that is held somewhere.
unfoldable pub database_store : {W : Type 0} → Holds W → Store W
unfolding save_circuit_breaker_state load_circuit_breaker_state
database_store holds = record {
  save = λ name saved. on_db holds (save_circuit_breaker_state name saved);
  load = λ name. on_db holds (load_circuit_breaker_state name);
}

abbrev pub Rows : Type 0
Rows = List (String × Saved)

abbrev upsert_all : Rows → Rows → Rows
upsert_all [] rows = rows
upsert_all ((name, saved) ∷ more) rows = upsert_all more (upsert name saved rows)

find-upsert :
    (name : String) (s : Saved) (rows : Rows) → find_saved name (upsert name s rows) ≡ some s
find-upsert name s [] = ground (arith, eq_iff name name)
find-upsert name s ((n, t) ∷ rest) =
    ground (arith, eq_iff n name, eq_iff name name, find-upsert name s rest)

find-upsert_other :
    (name other : String) (s : Saved) (rows : Rows)
    → other ≢ name
    → find_saved name (upsert other s rows) ≡ find_saved name rows
find-upsert_other name other s [] h = ground (arith, eq_iff other name, h)
find-upsert_other name other s ((n, t) ∷ rest) h = ground (
  arith,
  eq_iff n name,
  eq_iff n other,
  eq_iff other name,
  h,
  find-upsert_other name other s rest h,
)

find-upsert_all :
    (name : String) (more rows : Rows)
    → All (λ (r : String × Saved). r.0 ≢ name) more
    → find_saved name (upsert_all more rows) ≡ find_saved name rows
find-upsert_all name [] rows h = refl
find-upsert_all name ((n, s) ∷ more) rows h =
    find-upsert_all name more (upsert n s rows) h.1 ∙ find-upsert_other name n s rows h.0

-- A breaker on the database.
unfoldable pub on_database : {W : Type 0} → Holds W → ℕ → ℕ → String → Config W
unfolding database_store
on_database holds failure_threshold recovery_timeout name = record {
  failure_threshold = failure_threshold;
  recovery_timeout = recovery_timeout;
  name = name;
  store = some (database_store holds);
}

module _ {W : Type 0} (holds : Holds W) (failure_threshold recovery_timeout : ℕ) (name : String)
    (clock : Clock W) where
  abbrev pub config : Config W
  config = on_database holds failure_threshold recovery_timeout name

  saves :
      (b : Breaker W)
      → (holds.get b.world).connected ≡ true
      → (holds.get (persist config clock b).1.world).breakers
        ≡ upsert name (snapshot config clock b) (holds.get b.world).breakers
  unfolding on_database persist save_circuit_breaker_state database_store
  saves b up =
      ap (λ d. d.breakers) (holds.get-put _ b.world)
      ∙ ap (λ (x : Result Unit × Database). x.1.breakers)
          (if_true (holds.get b.world).connected _ _ up)

  loads :
      (fresh : Breaker W) (saved : Saved)
      → (holds.get fresh.world).connected ≡ true
      → find_saved name (holds.get fresh.world).breakers ≡ some saved
      → holds.put (holds.get fresh.world) fresh.world ≡ fresh.world
      → restore config clock fresh ≡ (ok tt, adopt config clock saved fresh)
  unfolding on_database restore adopt_if load_circuit_breaker_state database_store
  loads fresh saved up found same =
      let load : Action W (Option Saved) = on_db holds (load_circuit_breaker_state name) in
      let one : load fresh.world ≡ (ok (some saved), fresh.world) =
        ap (λ (x : Result (Option Saved) × Database). (x.0, holds.put x.1 fresh.world))
          (if_true (holds.get fresh.world).connected _ _ up)
        ∙ ap (λ o. (ok o, holds.put (holds.get fresh.world) fresh.world)) found
        ∙ ap (λ w. (ok (some saved), w)) same in
      ap
        (λ (x : Result (Option Saved) × W).
          (outside (λ w. x) >>= (λ o. modify (adopt_if config clock o))) fresh)
        one

  -- The state of an open circuit survives a restart through the database. What an open circuit persists on
  -- a connected database, whatever other breakers persist after it, is what a breaker of the same name
  -- restores from it: before the window is over, an open circuit with the same count and the same
  -- opening time.
  pub restart_keeps_circuit :
      (b fresh : Breaker W) (t : ℕ) (more : Rows)
      → (holds.get b.world).connected ≡ true
      → b.state ≡ open_
      → b.opened_at_wallclock ≡ some t
      → All (λ (r : String × Saved). r.0 ≢ name) more
      → (holds.get fresh.world).connected ≡ true
      → (holds.get fresh.world).breakers
        ≡ upsert_all more (holds.get (persist config clock b).1.world).breakers
      → holds.put (holds.get fresh.world) fresh.world ≡ fresh.world
      → clock.time fresh.world < t + recovery_timeout
      → ((restore config clock fresh).0 ≡ ok tt)
        × ((restore config clock fresh).1.state ≡ open_)
        × ((restore config clock fresh).1.failure_count ≡ b.failure_count)
        × ((restore config clock fresh).1.opened_at_wallclock ≡ some t)
  unfolding on_database
  restart_keeps_circuit b fresh t more up opened at_ others up' rows same early =
      let kept : find_saved name (holds.get fresh.world).breakers ≡ some (snapshot config clock b) =
        ap (find_saved name) rows
        ∙ find-upsert_all name more _ others
        ∙ ap (find_saved name) (saves b up)
        ∙ find-upsert name (snapshot config clock b) (holds.get b.world).breakers in
      let all = loads fresh (snapshot config clock b) up' kept same in
      let (state, count, time) = restore_of_snapshot config clock b fresh t opened at_ early in
      rw all (refl, state ∙ opened, count, time ∙ at_)
