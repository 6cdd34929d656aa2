-- ===== src/Monitor/Watermark/Unseen.antt =====
-- A breach that the runtime's state does not show: the storage and the hardware monitor move the runtime
-- only when their flag changes, in src/edgesentinel/storage/monitor.py and metrics/monitor.py.
use edge_sentinel.Monitor.Watermark
use edge_sentinel.Prelude.{
  List, String, [], arith, false, if_false, some, suc, sym, true, zero, ℕ, ◌∙◌, ◌≡◌,
}
use edge_sentinel.Core.States.{RuntimeState, can_transition, degraded, healthy, initializing}
use edge_sentinel.Core.Effects.{Result, gets, modify, ok}
use edge_sentinel.Core.Events.{Severity, Value, emit}
use edge_sentinel.Core.Hooks.{Hooks, IsHost}
use edge_sentinel.Core.Hooks.Laws.{state-apply}
use edge_sentinel.Core.Hooks.Closed.{LeavesState}
use edge_sentinel.Core.Effects.Keeps.{Keeps, Keeps-after, Keeps-bind, Keeps-pure}
use edge_sentinel.Monitor.Watermark.{
  Monitor, Watch, after_actions, managed_states, on_breach, outside, run_actions, to_state,
}
use edge_sentinel.Monitor.Watermark.Steady.{first_breach, seen, steady_poll}

module _ {W S : Type 0} (watch : Watch W S) where
  -- Rounds of `_poll_loop`, one after another.
  unfoldable pub polls : ℕ → Monitor W S → Monitor W S
  unfolding Watermark.check_once
  polls zero s = s
  polls (suc n) s = polls n (Watermark.check_once watch s).1

  -- The check goes on reading a breach.
  abbrev pub StaysBreached : Type 0
  StaysBreached =
      (w : W) → (status : S) × ((watch.read w).0 ≡ ok status) × (watch.breached status ≡ true)

-- A runtime in a state, with the flag up.
abbrev pub Masked : {W S : Type 0} → Hooks W → RuntimeState → Monitor W S → Type 0
Masked hooks state s = (hooks.get_state s.world ≡ state) × (s.breaching ≡ true)

module _ {W S : Type 0} (watch : Watch W S) (hooks : Hooks W) (wired : watch.hooks ≡ some hooks)
    (host : IsHost hooks watch.events) (reads : LeavesState hooks watch.read)
    (breached : StaysBreached watch) where
  pub polls-Masked :
      (n : ℕ) (state : RuntimeState) (s : Monitor W S)
      → Masked hooks state s
      → Masked hooks state (polls watch n s)
  unfolding polls
  polls-Masked zero state s m = m
  polls-Masked (suc n) state s (h, up) =
      let (status, r, b) = breached s.world in
      let all = steady_poll watch s status r (b ∙ sym up) in
      polls-Masked n state (Watermark.check_once watch s).1 (rw all (reads s.world ∙ h, b))

  module _ (idle : watch.actions ≡ []) where
    tells-Masked :
        (type : String) (severity : Severity) (metadata : List (String × Value))
        → Keeps
            (Masked {S = S} hooks initializing)
            (outside (emit watch.events type watch.component severity metadata))
    tells-Masked type severity metadata = record {
      at = λ s m. (host.watches type watch.component severity metadata s.world ∙ m.0, m.1);
    }

    -- INITIALIZING is not managed.
    waits : Keeps (Masked {S = S} hooks initializing) (outside {S = S} (to_state watch degraded))
    waits = record {
      at = λ s m.
          (ground (arith, state-apply hooks host managed_states degraded s.world, wired), m.1);
    }

    ends-Masked :
        (status : S) → Keeps (Masked {S = S} hooks initializing) (after_actions watch status)
    unfolding after_actions
    ends-Masked status = record { at = λ s m. rw (m.1, idle) m }

    runs-Masked :
        (status : S)
        → Keeps (Masked {S = S} hooks initializing) (run_actions watch watch.actions status)
    unfolding run_actions
    runs-Masked status = rw idle (Keeps-pure (ok status))

    on_breach-Masked :
        (status : S) → Keeps (Masked {S = S} hooks initializing) (on_breach watch status)
    unfolding on_breach
    on_breach-Masked status =
        Keeps-bind
          (outside (
            emit watch.events watch.entered watch.component Severity.warning
              (watch.reading status)))
          _ (tells-Masked watch.entered Severity.warning (watch.reading status))
          λ u. Keeps-bind (outside (to_state watch degraded)) _ waits λ v.
            Keeps-bind (run_actions watch watch.actions status)
              (λ status'. after_actions watch status') (runs-Masked status) ends-Masked

    first_poll :
        (s : Monitor W S)
        → s.breaching ≡ false
        → hooks.get_state s.world ≡ initializing
        → Masked {S = S} hooks initializing (Watermark.check_once watch s).1
    first_poll s down h =
        let (status, r, b) = breached s.world in
        let t = seen watch status (watch.read s.world).1 s in
        let m : Masked {S = S} hooks initializing t = (reads s.world ∙ h, b) in
        rw (first_breach watch s status r b down) (
          Keeps-after {P = Masked {S = S} hooks initializing} (on_breach watch status)
            (λ u. gets (λ s. s.status)) t ((on_breach-Masked status).at t m)
            (λ u. record { at = λ s m. m }))

    -- A monitor without actions that is started while the runtime is INITIALIZING, and reads a breach
    -- from then on, leaves it there with the flag up; once the runtime has been moved to HEALTHY, as a
    -- boot does, it stays HEALTHY through any number of polls, with the flag still up. The
    -- reading is assumed not to move the runtime.
    pub low_at_start :
        (n : ℕ) (s : Monitor W S)
        → s.polling ≡ false
        → s.breaching ≡ false
        → hooks.get_state s.world ≡ initializing
        → (let t = (Watermark.start watch s).1 in
            Masked {S = S} hooks initializing t
            × Masked hooks healthy
                (polls watch n (record t { world = (hooks.set_state healthy t.world).1 })))
    unfolding Watermark.start can_transition
    low_at_start n s idle_ down h =
        let t = (Watermark.start watch s).1 in
        let m : Masked {S = S} hooks initializing t =
          rw (if_false {A = Result Unit × Monitor W S} s.polling (ok tt, s) _ idle_) (
            Keeps-after {P = Masked {S = S} hooks initializing} (Watermark.check_once watch)
              (λ last. modify (λ t. record {
                status = t.status;
                breaching = t.breaching;
                polling = true;
                world = t.world;
              }))
              s (first_poll s down h) (λ last. record { at = λ s m. m })) in
        (
          m,
          polls-Masked n healthy (record t { world = (hooks.set_state healthy t.world).1 })
              (ground (arith, host.follows healthy t.world, m.0), m.1),
        )
