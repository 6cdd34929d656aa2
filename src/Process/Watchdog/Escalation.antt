-- ===== src/Process/Watchdog/Escalation.antt =====
-- What a round of the watchdog does to the runtime's lifecycle state.
use edge_sentinel.Prelude.{List, String, [], if◌then◌else◌, not, some, ℕ, ◌&&◌, ◌∷◌, ◌≡◌}
use edge_sentinel.Core.States.{RuntimeState}
use edge_sentinel.Core.Effects.{Action, done, modify, ok}
use edge_sentinel.Core.Events.{emit}
use edge_sentinel.Core.Hooks.{Hooks, IsHost}
use edge_sentinel.Core.Hooks.Closed.{IsClosed, closed-emit, closed-escalate}
use edge_sentinel.Core.Effects.Keeps.{Keeps, Keeps-bind, Keeps-if, Keeps-pure}
use edge_sentinel.Process.Watchdog.{
  Config, Target, Targets, Watchdog, announce, check_once, escalate_if, is_overdue, mark, outside,
  scan, with_watches,
}

module _ {P : RuntimeState → Type 0} (closed : IsClosed P) {W : Type 0} (config : Config W)
    (hooks : Hooks W) (wired : config.hooks ≡ some hooks) (host : IsHost hooks config.events) where
  abbrev Holds : W → Type 0
  Holds w = P (hooks.get_state w)

  announce-Keeps : (now : ℕ) (name : String) (t : Target) → Keeps Holds (announce config now name t)
  announce-Keeps now name t =
      Keeps-if (is_overdue now t && not t.stale) (emit config.events _ config.component _ _) _
        (closed-emit closed hooks host _ config.component _ _)
        (Keeps-if (not (is_overdue now t) && t.stale) (emit config.events _ config.component _ _)
          done (closed-emit closed hooks host _ config.component _ _) (Keeps-pure (ok tt)))

  scan-Keeps : (now : ℕ) (targets : Targets) → Keeps Holds (scan config now targets)
  unfolding scan
  scan-Keeps now [] = Keeps-pure (ok ([], []))
  scan-Keeps now ((name, t) ∷ rest) = record {
    at =
        (Keeps-bind (announce config now name t) _ (announce-Keeps now name t) λ u.
          Keeps-bind (scan config now rest) _ (scan-Keeps now rest) λ found. Keeps-pure (
            ok (
              (name, mark (is_overdue now t) t) ∷ found.0,
              if is_overdue now t && not t.stale then name ∷ found.1 else found.1,
            ))).at;
  }

  escalate_if-Keeps : (names : List String) → Keeps Holds (escalate_if config names)
  escalate_if-Keeps [] = Keeps-pure (ok tt)
  escalate_if-Keeps (name ∷ rest) = rw wired (closed-escalate closed hooks host)

  -- What every request of a round keeps, the round keeps.
  pub check_once-closed :
      Keeps (λ (s : Watchdog W). P (hooks.get_state s.world)) (check_once config)
  unfolding check_once
  check_once-closed = record {
    at = λ s.
        (Keeps-bind (outside (scan config (config.now s.world) s.watches)) _
            (within (scan-Keeps (config.now s.world) s.watches))
            λ found.
              Keeps-bind (modify (with_watches found.0)) _ (record { at = λ s p. p })
                λ u.
                  Keeps-bind (outside (escalate_if config found.1)) _
                    (within (escalate_if-Keeps found.1)) λ v. Keeps-pure (ok found.1)).at
          s;
  }
    where
      within :
          {A : Type 0} {m : Action W A}
          → Keeps Holds m
          → Keeps (λ (s : Watchdog W). P (hooks.get_state s.world)) (outside m)
      within k = record { at = λ s p. k.at s.world p }
