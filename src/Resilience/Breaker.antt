-- ===== src/Resilience/Breaker.antt =====
-- src/edgesentinel/resilience/circuit_breaker.py. Clock readings are natural numbers; the monotonic
-- time at which a restored breaker opened may lie before the clock's zero, so that field has a sign.
pub mod Storm
pub mod Invariant
pub mod Trips
pub mod Trials
pub mod Restore
use edge_sentinel.Prelude.{
  Bool, Option, String, false, if◌then◌else◌, leb, ltb, none, not, some, str_eq, true, ℕ, ◌+◌, ◌||◌,
}
use edge_sentinel.Core.Errors.{circuit_breaker_open, is_exception, value_error}
use edge_sentinel.Core.Effects.{Action, Result, done, err, modify, ok, pure, raise, ◌>>=◌, ◌>>◌}
use edge_sentinel.Prelude.Int.{ltb_ℤ, pos, ℤ, ◌-ℤ◌}

pub data CircuitState : Type 0 where
  closed open_ half_open : CircuitState

-- The enumeration's values, as they are persisted.
abbrev pub circuit_value : CircuitState → String
circuit_value closed = "closed"
circuit_value open_ = "open"
circuit_value half_open = "half_open"

-- What a store holds of a breaker: state, failure_count, opened_at.
pub record Saved : Type 0 where
  pub state : String
  pub failure_count : ℕ
  pub opened_at : Option ℕ

-- `CircuitBreakerStore`.
pub record Store (W : Type 0) : Type 0 where
  pub save : String → Saved → Action W Unit
  pub load : String → Action W (Option Saved)

-- `time.monotonic` and `time.time`.
pub record Clock (W : Type 0) : Type 0 where
  pub monotonic : W → ℕ
  pub time : W → ℕ

pub record Config (W : Type 0) : Type 0 where
  pub failure_threshold : ℕ
  pub recovery_timeout : ℕ
  pub name : String
  pub store : Option (Store W)

-- The fields that change, and the world about the breaker.
pub record Breaker (W : Type 0) : Type 0 where
  pub state : CircuitState
  pub failure_count : ℕ
  pub opened_at_monotonic : ℤ
  pub opened_at_wallclock : Option ℕ
  pub half_open_in_flight : Bool
  pub world : W

-- `CircuitBreaker.__init__`. The timeout is a natural number, so it is not negative.
unfoldable pub create : {W : Type 0} → Config W → W → Result (Breaker W)
create config w =
    if ltb config.failure_threshold 1
    then err value_error
    else ok (record {
      state = closed;
      failure_count = 0;
      opened_at_monotonic = pos 0;
      opened_at_wallclock = none;
      half_open_in_flight = false;
      world = w;
    })

abbrev pub outside : {W A : Type 0} → Action W A → Action (Breaker W) A
outside m b = let (r, w) = m b.world in (r, record b { world = w })

module _ {W : Type 0} (config : Config W) (clock : Clock W) where
  abbrev save_to : Option (Store W) → Saved → Action W Unit
  save_to none saved = done
  save_to (some store) saved = store.save config.name saved

  abbrev pub snapshot : Breaker W → Saved
  snapshot b = record {
    state = circuit_value b.state;
    failure_count = b.failure_count;
    opened_at = b.opened_at_wallclock;
  }

  unfoldable pub persist : Action (Breaker W) Unit
  persist b = outside (save_to config.store (snapshot b)) b

  -- `_before_call`.
  unfoldable pub before_call : Action (Breaker W) Unit
  unfolding ◌-ℤ◌
  before_call b = elim b.state [
    | closed ↦ (ok tt, b)
    | open_ ↦
        if ltb_ℤ (pos (clock.monotonic b.world) -ℤ b.opened_at_monotonic)
          (pos config.recovery_timeout)
        then (err (circuit_breaker_open config.name), b)
        else (ok tt, record b { state = half_open; half_open_in_flight = true })
    | half_open ↦
        if b.half_open_in_flight
        then (err (circuit_breaker_open config.name), b)
        else (ok tt, record b { half_open_in_flight = true })
  ]

  abbrev pub reset : Breaker W → Breaker W
  reset b = record {
    state = closed;
    failure_count = 0;
    opened_at_monotonic = pos 0;
    opened_at_wallclock = none;
    half_open_in_flight = false;
    world = b.world;
  }

  -- `_on_success`.
  unfoldable pub on_success : Action (Breaker W) Unit
  unfolding persist
  on_success = do modify reset; persist

  abbrev is_half_open : CircuitState → Bool
  is_half_open half_open = true
  is_half_open _ = false

  abbrev pub count_failure : Breaker W → Breaker W
  count_failure b =
      if is_half_open b.state || leb config.failure_threshold (b.failure_count + 1)
      then record {
        state = open_;
        failure_count = b.failure_count + 1;
        opened_at_monotonic = pos (clock.monotonic b.world);
        opened_at_wallclock = some (clock.time b.world);
        half_open_in_flight = false;
        world = b.world;
      }
      else record b { failure_count = b.failure_count + 1; half_open_in_flight = false }

  -- `_on_failure`.
  unfoldable pub on_failure : Action (Breaker W) Unit
  unfolding persist
  on_failure = do modify count_failure; persist

  -- What follows the operation of a call, by its outcome. `except Exception` lets a cancellation by.
  unfoldable pub after_call : {A : Type 0} → Result A → Action (Breaker W) A
  unfolding on_success on_failure
  after_call (ok a) = do on_success; pure a
  after_call (err e) = if is_exception e then (do on_failure; raise e) else raise e

  unfoldable pub call : {A : Type 0} → Action W A → Action (Breaker W) A
  unfolding before_call after_call
  call func = do
    before_call
    λ b. (let (r, w) = func b.world in after_call r (record b { world = w }))

  abbrev load_from : Option (Store W) → Action W (Option Saved)
  load_from none = pure none
  load_from (some store) = store.load config.name

  -- What `restore` does with a record that was found.
  unfoldable pub adopt : Saved → Breaker W → Breaker W
  unfolding ◌-ℤ◌
  adopt saved b =
      let b' : Breaker W = record b { failure_count = saved.failure_count } in
      elim saved.opened_at [
        | none ↦ b'
        | some opened_at ↦
            if not (str_eq saved.state "open")
            then b'
            else if leb (opened_at + config.recovery_timeout) (clock.time b.world)
            then record b' { state = half_open }
            else record b' {
              state = open_;
              opened_at_monotonic =
                  pos (clock.monotonic b.world) -ℤ (pos (clock.time b.world) -ℤ pos opened_at);
              opened_at_wallclock = some opened_at;
            }
      ]

  unfoldable pub adopt_if : Option Saved → Breaker W → Breaker W
  unfolding adopt
  adopt_if none b = b
  adopt_if (some saved) b = adopt saved b

  unfoldable pub restore : Action (Breaker W) Unit
  unfolding adopt_if
  restore = do found ← outside (load_from config.store); modify (adopt_if found)
