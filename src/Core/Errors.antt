-- ===== src/Core/Errors.antt =====
-- src/edgesentinel/core/exceptions.py and the exceptions that the modules of the package declare or
-- raise, as values.
use edge_sentinel.Prelude.{Bool, String, false, true, ℕ}
use edge_sentinel.Core.States.{RuntimeState}

pub data Error : Type 0 where
  invalid_state_transition : RuntimeState → RuntimeState → Error
  runtime_already_started runtime_not_started invalid_durable_payload : Error
  durable_operation_exhausted : String → String → ℕ → Error
  circuit_breaker_open : String → Error
  operation_timeout : Error
  unknown_watch_target : String → Error
  -- Python's own.
  value_error type_error key_error runtime_error overflow_error timeout_error assertion_error
        os_error :
      Error
  -- An exception that sqlite3 raises.
  database_error : Error
  -- An exception of the application's code, told apart by its class.
  application : ℕ → Error
  -- `asyncio.CancelledError`, a `BaseException`.
  cancelled : Error

-- What `except Exception` catches.
abbrev pub is_exception : Error → Bool
is_exception cancelled = false
is_exception _ = true
