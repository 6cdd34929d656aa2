-- ===== src/Process/Supervisor.antt =====
-- src/edgesentinel/process/supervisor.py: a task is restarted with backoff until it crashes too often.
pub mod Runtime
pub mod Escalation
pub mod Rounds
pub mod Termination
pub mod Window
pub mod Overflow
use edge_sentinel.Prelude.{
  Bool, List, Option, String, [], false, if◌then◌else◌, length, ltb, none, some, suc, true, zero, ℕ,
  ◌++◌, ◌+◌, ◌-◌, ◌==◌, ◌||◌, ◌∷◌,
}
use edge_sentinel.Core.States.{RuntimeState}
use edge_sentinel.Core.Errors.{Error, is_exception, value_error}
use edge_sentinel.Core.Effects.{Action, Result, catch, err, modify, ok, pure, ◌>>=◌, ◌>>◌}
use edge_sentinel.Core.Events.{Bus, Severity, emit, null, number, text}
use edge_sentinel.Core.Hooks.{Hooks, both_hooks, escalate_to_failed, when_given}
use edge_sentinel.Resilience.Backoff.{Backoff, compute_delay}

pub record Config (W : Type 0) : Type 0 where
  pub func : Action W Unit
  pub name : String
  pub max_crashes : ℕ
  pub window : ℕ
  pub backoff : Backoff
  pub events : Option (Bus W)
  pub component : String
  pub hooks : Option (Hooks W)
  pub sleep : ℕ → Action W Unit
  pub now : W → ℕ
  pub uniform : ℕ → Action W ℕ
  -- What `str` makes of an exception.
  pub str : Error → String

-- `_task`, with what it died of if it did.
pub data Task : Type 0 where
  absent live : Task
  dead : Error → Task

pub record Supervisor (W : Type 0) : Type 0 where
  pub failure_times : List ℕ
  pub crashed : Bool
  pub task : Task
  pub world : W

-- `Supervisor.__init__`. The window is a natural number, so "not positive" is zero.
unfoldable pub create :
    {W : Type 0}
    → Config W
    → Option (RuntimeState → Action W Unit)
    → Option (W → RuntimeState)
    → Result (Config W)
unfolding both_hooks
create args set get =
    if ltb args.max_crashes 1 || args.window == 0
    then err value_error
    else elim (both_hooks set get) [
      | ok hooks ↦ ok (record {
        func = args.func;
        name = args.name;
        max_crashes = args.max_crashes;
        window = args.window;
        backoff = args.backoff;
        events = args.events;
        component = args.component;
        hooks = hooks;
        sleep = args.sleep;
        now = args.now;
        uniform = args.uniform;
        str = args.str;
      })
      | err e ↦ err e
    ]

abbrev pub outside : {W A : Type 0} → Action W A → Action (Supervisor W) A
outside m s =
    let (r, w) = m s.world in
    (r, record { failure_times = s.failure_times; crashed = s.crashed; task = s.task; world = w })

abbrev pub with_times : {W : Type 0} → List ℕ → Supervisor W → Supervisor W
with_times times s = record {
  failure_times = times;
  crashed = s.crashed;
  task = s.task;
  world = s.world;
}

abbrev with_task : {W : Type 0} → Task → Supervisor W → Supervisor W
with_task task s = record {
  failure_times = s.failure_times;
  crashed = s.crashed;
  task = task;
  world = s.world;
}

abbrev pub is_running : {W : Type 0} → Supervisor W → Bool
is_running s = elim s.task [ absent ↦ false | _ ↦ true ]

-- `task.cancel(); with suppress(CancelledError): await task`.
unfoldable pub awaited : Task → Result Unit
awaited (dead e) = if is_exception e then err e else ok tt
awaited _ = ok tt

abbrev settled : {W : Type 0} → Result Bool × Supervisor W → Supervisor W
settled (ok b, s) = s
settled (err e, s) = with_task (dead e) s

-- `while times and now - times[0] > window: times.popleft()`. The clock does not run backwards.
pub trim : ℕ → ℕ → List ℕ → List ℕ
trim window now [] = []
trim window now (t ∷ ts) = if ltb window (now - t) then trim window now ts else t ∷ ts

module _ {W : Type 0} (config : Config W) where
  -- `start`: the loop itself is `run`.
  unfoldable pub start : Supervisor W → Supervisor W
  start s =
      if is_running s
      then s
      else record { failure_times = []; crashed = false; task = live; world = s.world }

  -- `stop`: a live task is cancelled, which is suppressed; a dead one raises again what it died of.
  unfoldable pub stop : Action (Supervisor W) Unit
  unfolding awaited
  stop s = (awaited s.task, with_task absent s)

  unfoldable pub give_up : Supervisor W → Supervisor W
  give_up s = record {
    failure_times = s.failure_times;
    crashed = true;
    task = absent;
    world = s.world;
  }

  unfoldable pub register_failure : Action (Supervisor W) Bool
  unfolding trim give_up
  register_failure s =
      let now = config.now s.world in
      let times = trim config.window now (s.failure_times ++ (now ∷ [])) in
      if ltb (length times) config.max_crashes
      then (ok false, with_times times s)
      else (do
        outside (
            emit config.events "task_crash_loop_detected" config.component Severity.critical (
              ("task", text config.name)
              ∷ ("crashes", number (length times))
              ∷ ("window", number config.window)
              ∷ []))
        outside (when_given config.hooks escalate_to_failed)
        modify give_up
        pure true)
          (with_times times s)

  -- The task's own run: what it raised, if it did. A cancellation passes.
  abbrev pub observe : Action W (Option Error)
  observe = catch (do config.func; pure none) (λ e. pure (some e))

  abbrev pub report_exit : ℕ → Option Error → Action W Unit
  report_exit attempt none =
      emit config.events "task_exited" config.component Severity.warning
        (("task", text config.name) ∷ ("attempt", number attempt) ∷ ("error", null) ∷ [])
  report_exit attempt (some e) = emit config.events "task_crashed" config.component Severity.error (
      ("task", text config.name)
      ∷ ("attempt", number attempt)
      ∷ ("error", text (config.str e))
      ∷ [])

  -- The end of a round of the loop: delay, event, sleep.
  unfoldable pub back_off : ℕ → Action W Unit
  unfolding compute_delay
  back_off attempt = do
    delay ← compute_delay config.uniform config.backoff attempt
    emit config.events "task_restarting" config.component Severity.info
        (("task", text config.name) ∷ ("attempt", number attempt) ∷ ("delay", number delay) ∷ [])
    config.sleep delay

  -- One round of `_run`: whether the supervisor gave up.
  unfoldable pub round : ℕ → Action (Supervisor W) Bool
  unfolding register_failure back_off
  round attempt = do
    exc ← outside observe
    outside (report_exit attempt exc)
    gave_up ← register_failure
    if gave_up then pure true else (do outside (back_off attempt); pure false)

  -- The first rounds of `_run`, from an attempt on: whether it has returned by then.
  pub run : ℕ → ℕ → Action (Supervisor W) Bool
  run zero attempt = pure false
  run (suc rounds) attempt = do
    gave_up ← round attempt
    if gave_up then pure true else run rounds (attempt + 1)

  -- The same in its task: what the loop raised is kept there.
  unfoldable pub in_task : ℕ → ℕ → Supervisor W → Supervisor W
  unfolding run
  in_task rounds attempt s = settled (run rounds attempt s)
