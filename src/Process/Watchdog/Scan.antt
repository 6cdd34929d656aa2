-- ===== src/Process/Watchdog/Scan.antt =====
-- What a round of the watchdog reports, and what it leaves.
use edge_sentinel.Prelude.{
  Bool-cases, List, String, [], arith, if◌then◌else◌, inl, inr, ltb, not, refl, ℕ, ◌&&◌, ◌-◌, ◌∷◌,
  ◌≡◌,
}
use edge_sentinel.Core.Effects.{Action, modify, ok, pure, ◌>>◌}
use edge_sentinel.Core.Events.Laws.{emit_ok}
use edge_sentinel.Process.Watchdog.{
  Config, Target, Targets, Watchdog, announce, check_once, escalate_if, is_overdue, outside, scan,
  with_watches,
}
use edge_sentinel.Core.Effects.Laws.{bind-ok}

-- The targets after a round at a time, and the names that are overdue and were not known to be.
abbrev pub mark_all : ℕ → Targets → Targets
mark_all now [] = []
mark_all now ((name, t) ∷ rest) =
    (
      name,
      record {
        timeout = t.timeout;
        last_seen = t.last_seen;
        stale = ltb t.timeout (now - t.last_seen);
      },
    )
    ∷ mark_all now rest

abbrev pub newly_overdue : ℕ → Targets → List String
newly_overdue now [] = []
newly_overdue now ((name, t) ∷ rest) =
    if ltb t.timeout (now - t.last_seen) && not t.stale
    then name ∷ newly_overdue now rest
    else newly_overdue now rest

module _ {W : Type 0} (config : Config W) where
  announce_returns :
      (now : ℕ) (name : String) (t : Target) (w : W) → (announce config now name t w).0 ≡ ok tt
  announce_returns now name t w = elim (Bool-cases (is_overdue now t)) [
    | inl o ↦ elim (Bool-cases t.stale) [
      | inl s ↦ rw (o, s) refl
      | inr s ↦ rw (o, s) (emit_ok config.events _ _ _ _ w)
    ]
    | inr o ↦ elim (Bool-cases t.stale) [
      | inl s ↦ rw (o, s) (emit_ok config.events _ _ _ _ w)
      | inr s ↦ rw (o, s) refl
    ]
  ]

  scan_returns :
      (now : ℕ) (ts : Targets) (w : W)
      → (scan config now ts w).0 ≡ ok (mark_all now ts, newly_overdue now ts)
  unfolding scan
  scan_returns now [] w = refl
  scan_returns now ((name, t) ∷ rest) w =
      rw
        (
          bind-ok (announce config now name t) _ w tt (announce_returns now name t w),
          bind-ok (scan config now rest) _ (announce config now name t w).1
              (mark_all now rest, newly_overdue now rest)
              (scan_returns now rest (announce config now name t w).1),
        )
        refl

  -- A round that returns has marked each target as stale exactly if, at the time when the round began,
  -- more than its timeout had passed since its last heartbeat, with the timeout and the last heartbeat
  -- unchanged, and returns the names of those that are stale now and were not marked before.
  pub check_once_outcome :
      (s : Watchdog W) (names : List String)
      → (check_once config s).0 ≡ ok names
      → ((check_once config s).1.watches ≡ mark_all (config.now s.world) s.watches)
        × (names ≡ newly_overdue (config.now s.world) s.watches)
  unfolding check_once
  check_once_outcome s names h =
      let now = config.now s.world in
      let all =
        bind-ok (outside (scan config now s.watches)) rest s
          (mark_all now s.watches, newly_overdue now s.watches)
          (scan_returns now s.watches s.world) in
      ground arith
    where
      rest : Targets × List String → Action (Watchdog W) (List String)
      rest (watches, newly) = do
        modify (with_watches watches)
        outside (escalate_if config newly)
        pure newly
