-- ===== src/Monitor/Probes.antt =====
-- src/edgesentinel/network/checks.py: the checks of a layer that the package provides.
use edge_sentinel.Prelude.{Bool, String, false, if◌then◌else◌, true, ℕ}
use edge_sentinel.Core.Errors.{Error, os_error, timeout_error}
use edge_sentinel.Core.Effects.{Action, done, err, modify, ok, pure, ◌>>◌}

-- What asyncio provides: `asyncio.open_connection` and the resolver, each within `asyncio.timeout`, and
-- the stream's writer, which is known by a number.
pub record Sockets (W : Type 0) : Type 0 where
  pub open_connection : ℕ → String → ℕ → Action W ℕ
  pub close : ℕ → W → W
  pub wait_closed : ℕ → Action W Unit
  pub getaddrinfo : ℕ → String → Action W Unit

-- `except (OSError, TimeoutError)`. What a timeout raises is an OSError too.
abbrev is_os_error : Error → Bool
is_os_error os_error = true
is_os_error timeout_error = true
is_os_error _ = false

module _ {W : Type 0} (sockets : Sockets W) where
  -- An action that is tried, with what is done on such an exception.
  abbrev suppress : {A : Type 0} → Action W A → (Error → Action W A) → Action W A
  suppress m handler w =
      let (r, w') = m w in
      elim r [ ok a ↦ (ok a, w') | err e ↦ if is_os_error e then handler e w' else (err e, w') ]

  abbrev closed : ℕ → Action W Bool
  closed writer = do
    modify (sockets.close writer)
    suppress (sockets.wait_closed writer) (λ e. done)
    pure true

  unfoldable pub tcp_reachable : String → ℕ → ℕ → Action W Bool
  tcp_reachable host port timeout_seconds w =
      let (r, w') = sockets.open_connection timeout_seconds host port w in
      elim r [
        | ok writer ↦ closed writer w'
        | err e ↦ if is_os_error e then (ok false, w') else (err e, w')
      ]

  unfoldable pub dns_resolves : String → ℕ → Action W Bool
  dns_resolves hostname timeout_seconds =
      suppress (do sockets.getaddrinfo timeout_seconds hostname; pure true) (λ e. pure false)
