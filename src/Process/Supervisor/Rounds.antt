-- ===== src/Process/Supervisor/Rounds.antt =====
-- A round of the supervisor by what the crash counter does.
use edge_sentinel.Prelude.{
  All, Bool, List, Option, [], ap, arith, false, if◌then◌else◌, length, ltb, none, refl, some, true,
  ℕ, ◌*◌, ◌++◌, ◌+◌, ◌-◌, ◌<◌, ◌∙◌, ◌∷◌, ◌≡◌, ◌≤◌,
}
use edge_sentinel.Core.Errors.{Error}
use edge_sentinel.Core.Effects.{Action, Result, modify, ok, pure, ◌>>=◌, ◌>>◌}
use edge_sentinel.Core.Hooks.{escalate_to_failed, when_given}
use edge_sentinel.Process.Supervisor.{
  Config, Supervisor, absent, back_off, give_up, live, observe, outside, register_failure,
  report_exit, round, trim, with_times,
}
use edge_sentinel.Process.Supervisor.Window.{announce, giving_up}
use edge_sentinel.Process.Supervisor.Overflow.{reported}
use edge_sentinel.Core.Events.Laws.{emit_ok}
use edge_sentinel.Core.Effects.Laws.{bind-ok}

pub All-later :
    (a b x y : ℕ) (ts : List ℕ)
    → b ≤ a + y
    → All (λ t. a ≤ t + x) ts
    → All (λ t. b ≤ t + (x + y)) ts
All-later a b x y [] h all = tt
All-later a b x y (t ∷ ts) h all = (omega (arith, h, all.0), All-later a b x y ts h all.1)

pub All-snoc :
    (a x : ℕ) (ts : List ℕ) (u : ℕ)
    → All (λ t. a ≤ t + x) ts
    → a ≤ u + x
    → All (λ t. a ≤ t + x) (ts ++ (u ∷ []))
All-snoc a x [] u all p = (p, tt)
All-snoc a x (t ∷ ts) u all p = (all.0, All-snoc a x ts u all.1 p)

-- What is within the window stays.
pub trim-All :
    (window now x : ℕ) (ts : List ℕ)
    → x ≤ window
    → All (λ t. now ≤ t + x) ts
    → trim window now ts ≡ ts
unfolding trim
trim-All window now x [] h all = refl
trim-All window now x (t ∷ ts) h all =
    let new : ltb window (now - t) ≡ false = ground (arith, h, all.0) in rw new refl

module _ {W : Type 0} (config : Config W) where
  -- The world once the end of the task is reported.
  abbrev pub told : ℕ → W → Option Error → W
  told attempt w exc = (report_exit config attempt exc (observe config w).1).1

  -- How the task, its events, the escalation and the delays behave: none of them is cancelled, the
  -- task comes back, by itself or with an exception, within `work`, and a delay within `pause`.
  pub record IsPrompt (work pause : ℕ) : Type 0 where
    pub ends : (w : W) → (exc : Option Error) × ((observe config w).0 ≡ ok exc)
    pub quickly :
        (attempt : ℕ) (w : W) (exc : Option Error)
        → config.now (told attempt w exc) ≤ config.now w + work
    pub rests :
        (attempt : ℕ) (w : W)
        → 1 ≤ attempt
        → attempt < config.max_crashes
        → ((back_off config attempt w).0 ≡ ok tt)
          × (config.now (back_off config attempt w).1 ≤ config.now w + pause)
    pub escalates : (w : W) → (when_given config.hooks escalate_to_failed w).0 ≡ ok tt

  abbrev pub crashes : Supervisor W → List ℕ
  crashes s = s.failure_times ++ (config.now s.world ∷ [])

  -- A crash below the limit is remembered with the others, and nothing is forgotten.
  pub crash_below :
      (s : Supervisor W)
      → trim config.window (config.now s.world) (crashes s) ≡ crashes s
      → ltb (length (crashes s)) config.max_crashes ≡ true
      → register_failure config s ≡ (ok false, with_times (crashes s) s)
  unfolding register_failure
  crash_below s same below = rw (same, below) refl

  -- The crash that reaches the limit.
  pub crash_at :
      (s : Supervisor W)
      → ((w : W) → (when_given config.hooks escalate_to_failed w).0 ≡ ok tt)
      → trim config.window (config.now s.world) (crashes s) ≡ crashes s
      → ltb (length (crashes s)) config.max_crashes ≡ false
      → ((register_failure config s).0 ≡ ok true)
        × ((register_failure config s).1.crashed ≡ true)
        × ((register_failure config s).1.task ≡ absent)
  unfolding register_failure
  crash_at s escalates same above =
      let t = with_times (crashes s) s in
      let tell = announce config s (crashes s) in
      let escalate = when_given config.hooks escalate_to_failed in
      let rest : Action (Supervisor W) Bool = modify (give_up config) >> pure true in
      let all =
        bind-ok (outside tell) (λ _. outside escalate >> rest) t tt
          (emit_ok config.events _ _ _ _ t.world)
        ∙ bind-ok (outside escalate) (λ _. rest) (outside tell t).1 tt
            (escalates (outside tell t).1.world) in
      let fine = ap (λ (x : Result Bool × Supervisor W). x.0) all in
      let (_, _, c, d) = giving_up config tell escalate t true fine in rw (same, above) (fine, c, d)

  told_ok :
      (exc : Option Error) (attempt : ℕ) (w : W) → (report_exit config attempt exc w).0 ≡ ok tt
  told_ok none attempt w = emit_ok config.events _ _ _ _ w
  told_ok (some x) attempt w = emit_ok config.events _ _ _ _ w

  module _ (attempt : ℕ) (s : Supervisor W) (exc : Option Error)
      (o : (observe config s.world).0 ≡ ok exc) where
    -- A round from there on.
    ending : Bool → Action (Supervisor W) Bool
    ending gave_up =
        if gave_up then pure true else (do outside (back_off config attempt); pure false)

    to_register :
        round config attempt s
        ≡ (register_failure config >>= ending) (reported config s attempt exc)
    unfolding round ending
    to_register =
        bind-ok (outside (observe config))
          (λ x. outside (report_exit config attempt x) >> (register_failure config >>= ending)) s
          exc o
        ∙ bind-ok (outside (report_exit config attempt exc))
            (λ _. register_failure config >>= ending) (outside (observe config) s).1 tt
            (told_ok exc attempt (observe config s.world).1)

    pub round_gives_up :
        (register_failure config (reported config s attempt exc)).0 ≡ ok true
        → round config attempt s
          ≡ (ok true, (register_failure config (reported config s attempt exc)).1)
    unfolding ending
    round_gives_up k =
        to_register
        ∙ bind-ok (register_failure config) ending (reported config s attempt exc) true k

    pub round_goes_on :
        (t : Supervisor W)
        → register_failure config (reported config s attempt exc) ≡ (ok false, t)
        → (back_off config attempt t.world).0 ≡ ok tt
        → round config attempt s ≡ (ok false, (outside (back_off config attempt) t).1)
    unfolding ending
    round_goes_on t k b =
        to_register
        ∙ bind-ok (register_failure config) ending (reported config s attempt exc) false
            (ap (λ (x : Result Bool × Supervisor W). x.0) k)
        ∙ ap (λ (x : Result Bool × Supervisor W). ending false x.1) k
        ∙ bind-ok (outside (back_off config attempt)) (λ _. pure false) t tt b

  -- What the first rounds come to: given up, or still at work.
  unfoldable pub Ends : Bool → Result Bool × Supervisor W → Type 0
  Ends true x = (x.0 ≡ ok true) × (x.1.crashed ≡ true) × (x.1.task ≡ absent)
  Ends false x = (x.0 ≡ ok false) × (x.1.task ≡ live)

  -- A supervisor at the start of a round that has seen so many crashes, all of them recent.
  pub record Seen (d k : ℕ) (s : Supervisor W) : Type 0 where
    pub runs : s.task ≡ live
    pub counted : length s.failure_times ≡ k
    pub recently : All (λ t. config.now s.world ≤ t + k * d) s.failure_times
