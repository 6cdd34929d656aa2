-- ===== src/Process/Watchdog.antt =====
-- src/edgesentinel/process/watchdog.py: heartbeats of named components.
pub mod Escalation
pub mod Scan
use edge_sentinel.Prelude.{
  Bool, List, Option, String, [], false, if◌then◌else◌, ltb, none, not, some, str_eq, true, ℕ, ◌&&◌,
  ◌-◌, ◌==◌, ◌∷◌,
}
use edge_sentinel.Core.States.{RuntimeState}
use edge_sentinel.Core.Errors.{unknown_watch_target, value_error}
use edge_sentinel.Core.Effects.{Action, Result, catch, done, err, modify, ok, pure, ◌>>=◌, ◌>>◌}
use edge_sentinel.Core.Events.{Bus, Severity, emit, number, text}
use edge_sentinel.Core.Hooks.{Hooks, both_hooks, escalate_to_failed, when_given}

-- `_Watch`.
pub record Target : Type 0 where
  pub timeout : ℕ
  pub last_seen : ℕ
  pub stale : Bool

-- The dictionary of targets, in its insertion order.
abbrev pub Targets : Type 0
Targets = List (String × Target)

abbrev lookup : String → Targets → Option Target
lookup name [] = none
lookup name ((n, t) ∷ rest) = if str_eq n name then some t else lookup name rest

abbrev insert : String → Target → Targets → Targets
insert name t [] = (name, t) ∷ []
insert name t ((n, u) ∷ rest) = if str_eq n name then (n, t) ∷ rest else (n, u) ∷ insert name t rest

abbrev erase : String → Targets → Targets
erase name [] = []
erase name ((n, u) ∷ rest) = if str_eq n name then rest else (n, u) ∷ erase name rest

pub record Config (W : Type 0) : Type 0 where
  pub poll_interval : ℕ
  pub events : Option (Bus W)
  pub component : String
  pub hooks : Option (Hooks W)
  pub now : W → ℕ

pub record Watchdog (W : Type 0) : Type 0 where
  pub watches : Targets
  pub polling : Bool
  pub world : W

-- `Watchdog.__init__`. The interval is a natural number, so "not positive" is zero.
unfoldable pub create :
    {W : Type 0}
    → Config W
    → Option (RuntimeState → Action W Unit)
    → Option (W → RuntimeState)
    → Result (Config W)
unfolding both_hooks
create args set get =
    if args.poll_interval == 0 then err value_error else elim (both_hooks set get) [
      | ok hooks ↦ ok (record {
        poll_interval = args.poll_interval;
        events = args.events;
        component = args.component;
        hooks = hooks;
        now = args.now;
      })
      | err e ↦ err e
    ]

abbrev pub outside : {W A : Type 0} → Action W A → Action (Watchdog W) A
outside m s =
    let (r, w) = m s.world in (r, record { watches = s.watches; polling = s.polling; world = w })

abbrev pub with_watches : {W : Type 0} → Targets → Watchdog W → Watchdog W
with_watches watches s = record { watches = watches; polling = s.polling; world = s.world }

-- `now - watch.last_seen > watch.timeout`. The clock does not run backwards; before `last_seen` the
-- difference stops at zero, where the test fails as it does on a negative difference.
abbrev pub is_overdue : ℕ → Target → Bool
is_overdue now t = ltb t.timeout (now - t.last_seen)

abbrev pub mark : Bool → Target → Target
mark stale t = record { timeout = t.timeout; last_seen = t.last_seen; stale = stale }

module _ {W : Type 0} (config : Config W) where
  unfoldable register : String → ℕ → Action (Watchdog W) Unit
  register name timeout s = if timeout == 0 then (err value_error, s) else (
    ok tt,
    with_watches
        (insert name (record { timeout = timeout; last_seen = config.now s.world; stale = false })
          s.watches)
        s,
  )

  unfoldable unregister : String → Action (Watchdog W) Unit
  unregister name s = (ok tt, with_watches (erase name s.watches) s)

  unfoldable heartbeat : String → Action (Watchdog W) Unit
  heartbeat name s = elim (lookup name s.watches) [
    | none ↦ (err (unknown_watch_target name), s)
    | some t ↦ (
      ok tt,
      with_watches
          (insert name
            (record { timeout = t.timeout; last_seen = config.now s.world; stale = t.stale })
            s.watches)
          s,
    )
  ]

  abbrev overdue_names : ℕ → Targets → List String
  overdue_names now [] = []
  overdue_names now ((n, t) ∷ rest) =
      if is_overdue now t then n ∷ overdue_names now rest else overdue_names now rest

  -- The property `stale`.
  unfoldable stale_names : Watchdog W → List String
  stale_names s = overdue_names (config.now s.world) s.watches

  -- The events of one target in a round.
  abbrev pub announce : ℕ → String → Target → Action W Unit
  announce now name t =
      if is_overdue now t && not t.stale
      then emit config.events "watchdog_target_stale" config.component Severity.error
          (("name", text name) ∷ ("timeout", number t.timeout) ∷ [])
      else if not (is_overdue now t) && t.stale
      then emit config.events "watchdog_target_recovered" config.component Severity.info
          (("name", text name) ∷ [])
      else done

  -- The loop of `check_once`: the targets after it, and the names that went stale.
  pub scan : ℕ → Targets → Action W (Targets × List String)
  scan now [] w = (ok ([], []), w)
  scan now ((name, t) ∷ rest) w =
      (do
        announce now name t
        (watches, newly) ← scan now rest
        pure (
          (name, mark (is_overdue now t) t) ∷ watches,
          if is_overdue now t && not t.stale then name ∷ newly else newly,
        ))
        w

  abbrev pub escalate_if : List String → Action W Unit
  escalate_if [] = done
  escalate_if (name ∷ rest) = when_given config.hooks escalate_to_failed

  unfoldable pub check_once : Action (Watchdog W) (List String)
  unfolding scan escalate_to_failed
  check_once s =
      (do
        (watches, newly) ← outside (scan (config.now s.world) s.watches)
        modify (with_watches watches)
        outside (escalate_if newly)
        pure newly)
        s

  unfoldable pub start : Action (Watchdog W) Unit
  unfolding check_once
  start s =
      if s.polling
      then (ok tt, s)
      else (do
        check_once
        modify (λ t. record { watches = t.watches; polling = true; world = t.world }))
          s

  unfoldable pub stop : Action (Watchdog W) Unit
  stop = modify (λ t. record { watches = t.watches; polling = false; world = t.world })

  -- One round of `_poll_loop`, after its sleep.
  unfoldable pub poll_round : Action (Watchdog W) Unit
  unfolding check_once
  poll_round = catch (do check_once; done) (λ e. done)
