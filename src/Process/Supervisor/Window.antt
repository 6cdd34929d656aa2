-- ===== src/Process/Supervisor/Window.antt =====
-- The supervisor gives up by the crashes within its window.
use edge_sentinel.Prelude.{
  All, Bool, Bool-cases, List, [], ap, arith, false, if◌then◌else◌, inl, inr, length, ltb, refl,
  sym, true, ℕ, ◌++◌, ◌-◌, ◌∙◌, ◌∷◌, ◌≡◌, ◌≤◌,
}
use edge_sentinel.Core.Effects.{Action, Result, modify, ok, pure, ◌>>◌}
use edge_sentinel.Core.Events.{Severity, emit, number, text}
use edge_sentinel.Core.Hooks.{escalate_to_failed, when_given}
use edge_sentinel.Process.Supervisor.{
  Config, Supervisor, absent, give_up, outside, register_failure, trim,
}
use edge_sentinel.Core.Effects.Laws.{bind-inv}

-- The crashes that are at most a window old.
abbrev recent : ℕ → ℕ → List ℕ → List ℕ
recent window now [] = []
recent window now (t ∷ ts) =
    if ltb window (now - t) then recent window now ts else t ∷ recent window now ts

-- Times in the order of a clock that does not run backwards.
abbrev IsAscending : List ℕ → Type 0
IsAscending [] = Unit
IsAscending (t ∷ ts) = All (λ u. t ≤ u) ts × IsAscending ts

recent-All :
    (window now t : ℕ) (ts : List ℕ)
    → ltb window (now - t) ≡ false
    → All (λ u. t ≤ u) ts
    → recent window now ts ≡ ts
recent-All window now t [] h a = refl
recent-All window now t (u ∷ us) h a =
    let new : ltb window (now - u) ≡ false = ground (arith, a.0) in
    rw new (ap (λ rest. u ∷ rest) (recent-All window now t us h a.1))

-- Dropping the old entries from the front is enough.
trim-recent :
    (window now : ℕ) (ts : List ℕ) → IsAscending ts → trim window now ts ≡ recent window now ts
unfolding trim
trim-recent window now [] a = refl
trim-recent window now (t ∷ ts) a = elim (Bool-cases (ltb window (now - t))) [
  | inl old ↦ rw old (trim-recent window now ts a.1)
  | inr new ↦ rw new (ap (λ rest. t ∷ rest) (sym (recent-All window now t ts new a.0)))
]

ok-inj : {A : Type 0} (a b : A) → ok b ≡ ok a → a ≡ b
ok-inj a b h = ground arith

module _ {W : Type 0} (config : Config W) (tell escalate : Action W Unit) (t : Supervisor W) where
  -- Events and escalation before giving up.
  abbrev parting : Action (Supervisor W) Bool
  parting = outside tell >> (outside escalate >> (modify (give_up config) >> pure true))

  -- The supervisor when both are done.
  abbrev parted : Supervisor W
  parted = give_up config (outside escalate (outside tell t).1).1

  pub parting_lem : (r : Bool) → (parting t).0 ≡ ok r → parting t ≡ (ok true, parted)
  unfolding give_up
  parting_lem r h =
      let rest : Action (Supervisor W) Bool =
        outside escalate >> (modify (give_up config) >> pure true) in
      let (u, told, one) = bind-inv (outside tell) (λ _. rest) t r h in
      let h' = ap (λ (x : Result Bool × Supervisor W). x.0) (sym one) ∙ h in
      let (v, went, two) =
        bind-inv (outside escalate) (λ _. modify (give_up config) >> pure true) (outside tell t).1 r
          h' in
      one ∙ two

  pub giving_up :
      (r : Bool)
      → (parting t).0 ≡ ok r
      → ((parting t).1.failure_times ≡ t.failure_times)
        × (r ≡ true)
        × ((parting t).1.crashed ≡ true)
        × ((parting t).1.task ≡ absent)
  unfolding give_up
  giving_up r h =
      let all = parting_lem r h in
      rw all (
        refl,
        ok-inj r true (sym (ap (λ (x : Result Bool × Supervisor W). x.0) all) ∙ h),
        refl,
        refl,
      )

module _ {W : Type 0} (config : Config W) (s : Supervisor W) where
  -- The crashes that count, with the one just seen.
  abbrev crashes : List ℕ
  crashes = recent config.window (config.now s.world) (s.failure_times ++ (config.now s.world ∷ []))

  abbrev pub announce : List ℕ → Action W Unit
  announce times =
      emit config.events "task_crash_loop_detected" config.component Severity.critical (
        ("task", text config.name)
        ∷ ("crashes", number (length times))
        ∷ ("window", number config.window)
        ∷ [])

  -- After a crash, the supervisor keeps exactly the crash times within its window. Below `max_crashes`
  -- of them it goes on as it was. From there on, if it returns, it has given up: it is marked as
  -- crashed and no longer runs. The recorded times are assumed in the clock's order.
  pub register_failure_outcome :
      (r : Bool)
      → IsAscending (s.failure_times ++ (config.now s.world ∷ []))
      → (register_failure config s).0 ≡ ok r
      → ((register_failure config s).1.failure_times ≡ crashes)
        × (if ltb (length crashes) config.max_crashes
            then (r ≡ false)
              × ((register_failure config s).1.crashed ≡ s.crashed)
              × ((register_failure config s).1.task ≡ s.task)
            else (r ≡ true)
              × ((register_failure config s).1.crashed ≡ true)
              × ((register_failure config s).1.task ≡ absent))
  unfolding register_failure
  register_failure_outcome r a h =
      let now = config.now s.world in
      let same = trim-recent config.window now (s.failure_times ++ (now ∷ [])) a in
      elim (Bool-cases (ltb (length crashes) config.max_crashes)) [
        | inl below ↦
            let h' = (rw (same, below) at h) in
            rw (same, below) (refl, (ok-inj r false h', refl, refl))
        | inr above ↦
            let h' = (rw (same, above) at h) in
            let (p, q, c, d) =
              giving_up config (announce crashes) (when_given config.hooks escalate_to_failed)
                (record s { failure_times = crashes }) r h' in
            rw (same, above) (p, (q, c, d))
      ]

  pub goes_on :
      (register_failure config s).0 ≡ ok false
      → ((register_failure config s).1.crashed ≡ s.crashed)
        × ((register_failure config s).1.task ≡ s.task)
  unfolding register_failure
  goes_on h =
      let now = config.now s.world in
      let times = trim config.window now (s.failure_times ++ (now ∷ [])) in
      elim (Bool-cases (ltb (length times) config.max_crashes)) [
        | inl below ↦ rw below (refl, refl)
        | inr above ↦
            let h' = (rw above at h) in
            let (_, gave, _, _) =
              giving_up config (announce times) (when_given config.hooks escalate_to_failed)
                (record s { failure_times = times }) false h' in
            cc
      ]
