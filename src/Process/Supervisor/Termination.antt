-- ===== src/Process/Supervisor/Termination.antt =====
-- A task that keeps crashing quickly is given up.
use native.Mathlib.Nat.{mul-le-mul_right}
use edge_sentinel.Prelude.{
  All, Bool, Bool-cases, Option, [], ap, arith, false, if◌then◌else◌, inl, inr, leb, length,
  length-append, ltb, refl, subst, suc, true, zero, ℕ, ◌*◌, ◌+◌, ◌-◌, ◌∙◌, ◌∷◌, ◌≡◌, ◌≤◌,
}
use edge_sentinel.Core.Errors.{Error}
use edge_sentinel.Core.Effects.{Result, pure}
use edge_sentinel.Process.Supervisor.Rounds.{
  All-later, All-snoc, Ends, IsPrompt, Seen, crash_at, crash_below, crashes, round_gives_up,
  round_goes_on, told, trim-All,
}
use edge_sentinel.Process.Supervisor.{
  Config, Supervisor, back_off, is_running, outside, round, run, start, trim, with_times,
}
use edge_sentinel.Process.Supervisor.Overflow.{reported}
use edge_sentinel.Core.Effects.Laws.{bind-ok}

plus_one : (k : ℕ) → k + 1 ≡ suc k
plus_one k = omega arith

times-suc : (k d : ℕ) → suc k * d ≡ k * d + d
times-suc k d = omega arith

module _ {W : Type 0} (config : Config W) where
  module _ (work pause : ℕ) (prompt : IsPrompt config work pause)
      (fits : config.max_crashes * (work + pause) ≤ config.window) where
    -- The crashes at the time of the next one are all within the window.
    within :
        (k attempt : ℕ) (s : Supervisor W) (exc : Option Error)
        → Seen config (work + pause) k s
        → suc k ≤ config.max_crashes
        → (length (crashes config (reported config s attempt exc)) ≡ suc k)
          × All
              (λ t. config.now (told config attempt s.world exc) ≤ t + (k * (work + pause) + work))
              (crashes config (reported config s attempt exc))
          × (trim config.window
                (config.now (told config attempt s.world exc))
                (crashes config (reported config s attempt exc))
              ≡ crashes config (reported config s attempt exc))
    within k attempt s exc seen below =
        let now = config.now (told config attempt s.world exc) in
        let later =
          All-later (config.now s.world) now (k * (work + pause)) work s.failure_times
            (prompt.quickly attempt s.world exc) seen.recently in
        let all =
          All-snoc now (k * (work + pause) + work) s.failure_times now later (omega arith) in
        let bound = room k below in
        (
          omega (arith, length-append s.failure_times (now ∷ []), seen.counted),
          all,
          trim-All config.window now (k * (work + pause) + work)
              (crashes config (reported config s attempt exc)) bound all,
        )
      where
        room : (k : ℕ) → suc k ≤ config.max_crashes → k * (work + pause) + work ≤ config.window
        room k below =
            omega (arith, mul-le-mul_right (work + pause) below, times-suc k (work + pause), fits)

    keeps_on :
        (rounds k : ℕ) (s : Supervisor W)
        → Seen config (work + pause) k s
        → suc k ≤ config.max_crashes
        → Ends config (leb (config.max_crashes - k) rounds) (run config rounds (suc k) s)
    unfolding run Ends
    keeps_on zero k s seen below =
        let not_yet : leb (config.max_crashes - k) 0 ≡ false = ground arith in
        rw not_yet (refl, seen.runs)
    keeps_on (suc rounds) k s seen below =
        let (exc, o) = prompt.ends s.world in
        let (len, all, same) = within k (suc k) s exc seen below in
        let s' = reported config s (suc k) exc in
        elim (Bool-cases (ltb (suc k) config.max_crashes)) [
          | inl more ↦
              let t = with_times (crashes config s') s' in
              let (b, slow) = prompt.rests (suc k) t.world (omega arith) (ground (arith, more)) in
              let goes =
                round_goes_on config (suc k) s exc o t
                  (crash_below config s' same (ap (λ n. ltb n config.max_crashes) len ∙ more)) b in
              let u = (outside (back_off config (suc k)) t).1 in
              let seen' : Seen config (work + pause) (suc k) u = record {
                runs = seen.runs;
                counted = len;
                recently =
                    subst (λ x. All (λ c. config.now u.world ≤ c + x) (crashes config s')) (next k)
                      (All-later (config.now t.world) (config.now u.world)
                        (k * (work + pause) + work) pause (crashes config s') slow all);
              } in
              let rest = keeps_on rounds (suc k) u seen' (ground (arith, more)) in
              let same_count : leb (config.max_crashes - k) (suc rounds)
                  ≡ leb (config.max_crashes - suc k) rounds =
                ground (arith, more) in
              let on =
                bind-ok (round config (suc k))
                  (λ g. if g then pure true else run config rounds (suc k + 1)) s false
                  (ap (λ (x : Result Bool × Supervisor W). x.0) goes)
                ∙ ap (λ (x : Result Bool × Supervisor W). run config rounds (suc k + 1) x.1) goes in
              rw (same_count, on, plus_one (suc k)) rest
          | inr last ↦
              let ends =
                crash_at config s' prompt.escalates same
                  (ap (λ n. ltb n config.max_crashes) len ∙ last) in
              let goes = round_gives_up config (suc k) s exc o ends.0 in
              let now_due : leb (config.max_crashes - k) (suc rounds) ≡ true =
                ground (arith, last) in
              let on =
                bind-ok (round config (suc k))
                  (λ g. if g then pure true else run config rounds (suc k + 1)) s true
                  (ap (λ (x : Result Bool × Supervisor W). x.0) goes) in
              rw (now_due, on, goes) (refl, ends.1, ends.2)
        ]
      where
        next : (k : ℕ) → (k * (work + pause) + work) + pause ≡ suc k * (work + pause)
        next k = omega (arith, times-suc k (work + pause))

    -- A started task that keeps ending, each time within `work`, and is delayed for at most `pause`,
    -- so that `max_crashes` of its rounds fit into the window, is given up in exactly the
    -- round `max_crashes`: the loop returns, the supervisor is marked as crashed and no longer runs. In
    -- all rounds before, the task runs.
    pub gives_up_in_time :
        (rounds : ℕ) (s : Supervisor W)
        → 1 ≤ config.max_crashes
        → is_running s ≡ false
        → Ends config (leb config.max_crashes rounds) (run config rounds 1 (start config s))
    unfolding start
    gives_up_in_time rounds s some_ idle =
        let seen : Seen config (work + pause) 0 (start config s) =
          rw idle (record { runs = refl; counted = refl; recently = tt }) in
        let none_yet : config.max_crashes - 0 ≡ config.max_crashes = omega arith in
        (rw none_yet at (keeps_on rounds 0 (start config s) seen some_))
