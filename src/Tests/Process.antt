-- ===== src/Tests/Process.antt =====
-- A watchdog and a supervisor in a world that is a clock.
use edge_sentinel.Process.Watchdog
use edge_sentinel.Process.Supervisor
use edge_sentinel.Prelude.{
  List, Option, [], arith, false, ltb, none, refl, some, true, ℕ, ◌+◌, ◌∷◌, ◌≡◌, ◌≤◌,
}
use edge_sentinel.Core.Errors.{Error, application, overflow_error}
use edge_sentinel.Core.Effects.{err, ok}
use edge_sentinel.Resilience.Backoff.{
  BackoffAlgorithm, base_delay, compute_delay, exponential, fixed,
}
use edge_sentinel.Process.Supervisor.Termination.{gives_up_in_time}
use edge_sentinel.Process.Supervisor.Rounds.{Ends, IsPrompt}
use edge_sentinel.Process.Supervisor.{
  Supervisor, absent, back_off, in_task, is_running, live, register_failure, report_exit, run,
  start,
}
use edge_sentinel.Process.Watchdog.{Targets, Watchdog}
use edge_sentinel.Process.Watchdog.Scan.{check_once_outcome, mark_all, newly_overdue}
use edge_sentinel.Process.Supervisor.Window.{register_failure_outcome}
use edge_sentinel.Process.Supervisor.Overflow.{round_overflows}

abbrev dog : Watchdog.Config ℕ
dog = record {
  poll_interval = 5;
  events = none;
  component = "watchdog";
  hooks = none;
  now = λ w. w;
}

abbrev targets : Targets
targets =
    ("sensor", record { timeout = 10; last_seen = 0; stale = false })
    ∷ ("uplink", record { timeout = 60; last_seen = 0; stale = false })
    ∷ []

abbrev guarded : Watchdog ℕ
guarded = record { watches = targets; polling = true; world = 30 }

check_once_outcome_example :
    ((Watchdog.check_once dog guarded).1.watches ≡ mark_all 30 targets)
    × ("sensor" ∷ [] ≡ newly_overdue 30 targets)
unfolding Watchdog.check_once
check_once_outcome_example = check_once_outcome dog guarded ("sensor" ∷ []) refl

abbrev worker : BackoffAlgorithm → Supervisor.Config ℕ
worker algorithm = record {
  func = λ w. (err (application 2), w + 100);
  name = "reader";
  max_crashes = 3;
  window = 50;
  backoff = record { algorithm = algorithm; initial_delay = 1; max_delay = 60; jitter = false };
  events = none;
  component = "supervisor";
  hooks = none;
  sleep = λ n w. (ok tt, w + n);
  now = λ w. w;
  uniform = λ n w. (ok n, w);
  str = λ e. "boom";
}

abbrev up : List ℕ → ℕ → Supervisor ℕ
up times w = record { failure_times = times; crashed = false; task = live; world = w }

register_failure_outcome_example :
    ((register_failure (worker fixed) (up (5 ∷ 80 ∷ 95 ∷ []) 110)).1.failure_times
      ≡ 80 ∷ 95 ∷ 110 ∷ [])
    × ((true ≡ true)
        × ((register_failure (worker fixed) (up (5 ∷ 80 ∷ 95 ∷ []) 110)).1.crashed ≡ true)
        × ((register_failure (worker fixed) (up (5 ∷ 80 ∷ 95 ∷ []) 110)).1.task ≡ absent))
unfolding register_failure
register_failure_outcome_example =
    register_failure_outcome (worker fixed) (up (5 ∷ 80 ∷ 95 ∷ []) 110) true
      (
        (omega arith, (omega arith, (omega arith, tt))),
        ((omega arith, (omega arith, tt)), ((omega arith, tt), (tt, tt))),
      )
      refl

round_overflows_example :
    ((in_task (worker exponential) 1 1025 (up [] 0)).crashed ≡ false)
    × (is_running (in_task (worker exponential) 1 1025 (up [] 0)) ≡ true)
    × ((Supervisor.stop (worker exponential) (in_task (worker exponential) 1 1025 (up [] 0))).0
        ≡ err overflow_error)
unfolding register_failure
round_overflows_example =
    round_overflows (worker exponential) (up [] 0) 1025 (some (application 2)) refl (omega arith)
      refl refl refl refl

-- A task that fails every ten seconds.
abbrev flapping : Supervisor.Config ℕ
flapping = record (worker fixed) { func = λ w. (err (application 2), w + 10) }

reports_in_no_time :
    (attempt w : ℕ) (exc : Option Error) → (report_exit flapping attempt exc w).1 ≤ w
reports_in_no_time attempt w none = omega arith
reports_in_no_time attempt w (some e) = omega arith

one_second :
    (attempt w : ℕ)
    → 1 ≤ attempt
    → ((back_off flapping attempt w).0 ≡ ok tt) × ((back_off flapping attempt w).1 ≤ w + 1)
unfolding back_off compute_delay base_delay
one_second attempt w h =
    let later : ltb attempt 1 ≡ false = ground (arith, h) in rw later (refl, omega arith)

flapping-IsPrompt : IsPrompt flapping 10 1
flapping-IsPrompt = record {
  ends = λ w. (some (application 2), refl);
  quickly = λ attempt w exc. reports_in_no_time attempt (w + 10) exc;
  rests = λ attempt w h below. one_second attempt w h;
  escalates = λ w. refl;
}

gives_up_in_time_example :
    ((run flapping 3 1 (start flapping (record (up [] 0) { task = absent }))).0 ≡ ok true)
    × ((run flapping 3 1 (start flapping (record (up [] 0) { task = absent }))).1.crashed ≡ true)
    × ((run flapping 3 1 (start flapping (record (up [] 0) { task = absent }))).1.task ≡ absent)
unfolding Ends
gives_up_in_time_example =
    gives_up_in_time flapping 10 1 flapping-IsPrompt (omega arith) 3
      (record (up [] 0) { task = absent }) (omega arith) refl
