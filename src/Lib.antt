-- ===== src/Lib.antt =====
-- EdgeSentinel: a verification library of the runtime in src/edgesentinel. Paths below are from the
-- repository's root.
--
-- The program supervises an application on an edge device. A runtime composes a state machine of
-- lifecycle states, an event bus, a database, durable operations that are replayed after a crash,
-- resilience wrappers, a supervisor and a watchdog of tasks, and monitors of storage, hardware and
-- network that move the lifecycle state through two hooks.
--
-- How the code is read. A method is an `Action S A` (Core/Effects): the state that it leaves with what
-- it returns or raises; a raise keeps what was written. `except Exception` is `catch`, which lets a
-- cancellation by; `finally` is `finally`. A component's fields are a record with the world about it,
-- which the component's parameters (clocks, stores, callbacks, handlers) act on.
--
-- Which file models which part:
--   Core/States, Core/Lifecycle (and below)   core/state.py, core/lifecycle.py
--   Core/Errors, Core/Events                  core/exceptions.py, core/events.py
--   Core/Hooks                                set_state, get_state, _escalate and _apply_to_runtime of
--                                             storage, metrics, process
--   Core/Hooks/Closed                         which lifecycle states these hooks can lead to
--   Monitor/Watermark                         what storage/monitor.py and metrics/monitor.py share
--   Monitor/Storage, Metrics, Network         storage, metrics/monitor.py and network/monitor.py
--   Monitor/Checks                            metrics/checks.py
--   Monitor/Probes                            network/checks.py
--   Resilience/Backoff, Retry, Breaker        resilience/backoff.py, retry.py and timeout.py,
--                                             circuit_breaker.py
--   Resilience/Policy                         resilience/policy.py; Policy/Storm has the retries and the
--                                             breaker together
--   Process/Watchdog, Supervisor              process
--   Persistence/Migrations, Database          persistence: the migrations and the typed operations
--   Persistence/Connection                    persistence/database.py: the connection, the statements of
--                                             a caller and transactions
--   Persistence/Breakers                      the database as the store of the circuit breakers
--   Durability/Journal, Operations            durability
--   Durability/Ahead                          the journal's write ahead of an operation
--   Diagnostics/Incidents, Timeline, Report   diagnostics
--   Integrations/Subscription, Http, Mqtt     integrations
--   Runtime                                   core/runtime.py: start and stop
--   Runtime/Wiring                            core/runtime.py: the constructor and the methods that create
--                                             and register subsystems
--   Runtime/Places, Runtime/Rounds            the subsystems of one runtime, and their rounds in any order
--   Runtime/Recording                         the bus, the timeline and the database together
--   Cli                                       cli/main.py
--   Tests                                     the theorems at concrete inputs
-- The interface between the lifecycle and the components that move it is `Hooks` with its laws
-- `IsHost` (Core/Hooks), which Core/Lifecycle/Host fills. Prelude has the shared helpers.
--
-- Numbers. Times and delays are natural numbers of a fixed small unit, so that sums are exact where
-- the code uses floats; a ratio is a natural number in a unit of which `one` make 1.0. Temperatures,
-- in thousandths of a degree, and restored monotonic times are integers. The power of the
-- exponential backoff overflows at 2 ** 1024 as a double does.
--
-- Loops. `for attempt in range(...)` is recursion on the rounds that are left, which are all of them
-- at the start, so nothing is cut off. The endless polling loops are modelled by one round. The
-- supervisor's loop is modelled by any number of first rounds, with the number of rounds after which
-- it has returned; Runtime/Rounds has any sequence of rounds of all subsystems, each run as a whole,
-- and Durability/Operations/Settled any number of starts with their replays.
--
-- Not modelled: argparse and build_parser, the HTTP transport and the MQTT client that the
-- publishers are given by default (I/O, or clients of third parties; they are parameters), a task
-- that swallows its cancellation, an operation or a handler that never returns, a typed statement
-- of the open database that fails (a locked file, a full disk, a missing table), rows that the
-- package did not write, state change handlers that themselves move the lifecycle, underscores and
-- digits outside ASCII in what int() reads, and the scheduling of asyncio beyond the interleaving
-- of a breaker's calls and of whole rounds. Handlers of the bus run one after another.
pub mod Prelude
pub mod Core
pub mod Cli
pub mod Integrations
pub mod Monitor
pub mod Resilience
pub mod Process
pub mod Persistence
pub mod Durability
pub mod Diagnostics
pub mod Runtime
pub mod Tests
