-- ===== src/Monitor/Watermark/Outcome.antt =====
-- Where a poll that sees a breach for the first time leaves the runtime.
use edge_sentinel.Prelude.{
  All, Bool, Bool-cases, List, Option, String, [], ap, arith, false, inl, inr, refl, some, sym,
  true, ◌∙◌, ◌∷◌, ◌≡◌,
}
use edge_sentinel.Core.States.{RuntimeState, can_transition, degraded, failed, healthy}
use edge_sentinel.Core.Effects.{Action, Result, gets, ok, ◌>>=◌, ◌>>◌}
use edge_sentinel.Core.Events.{Severity, Value, emit}
use edge_sentinel.Core.Hooks.{Hooks, IsHost, escalate_to_failed, when_given}
use edge_sentinel.Core.Hooks.Closed.{LeavesState}
use edge_sentinel.Core.Events.Laws.{emit_ok}
use edge_sentinel.Core.Effects.Keeps.{Keeps}
use edge_sentinel.Core.Effects.Laws.{bind-inv, bind-ok}
use edge_sentinel.Monitor.Watermark.{
  Monitor, Watch, after_actions, check_once, on_breach, on_exhausted, on_recovered, outside,
  run_actions, to_state,
}
use edge_sentinel.Monitor.Watermark.Steady.{first_breach, seen}
use edge_sentinel.Monitor.Watermark.Parts.{run_actions-Keeps}
use edge_sentinel.Monitor.Watermark.Runtime.{escalated, to_state_lem}

-- The runtime after a breach, by whether it still stands after the actions, and whether there were
-- any.
abbrev breach_ends : {W : Type 0} → Bool → List (Action W Unit) → RuntimeState
breach_ends false actions = healthy
breach_ends true [] = degraded
breach_ends true (a ∷ rest) = failed

module _ {W S : Type 0} (watch : Watch W S) (hooks : Hooks W) (wired : watch.hooks ≡ some hooks)
    (host : IsHost hooks watch.events) (reads : LeavesState hooks watch.read)
    (acts : All (λ action. LeavesState hooks action) watch.actions) where
  -- An event, then a move.
  emit_then :
      (type : String) (severity : Severity) (metadata : List (String × Value))
      (next : Action W Unit) (w : W)
      → (emit watch.events type watch.component severity metadata >> next) w
        ≡ next (emit watch.events type watch.component severity metadata w).1
  emit_then type severity metadata next w =
      bind-ok (emit watch.events type watch.component severity metadata) (λ _. next) w tt
        (emit_ok watch.events type watch.component severity metadata w)

  recovers :
      (status : S) (w : W)
      → hooks.get_state w ≡ degraded
      → hooks.get_state (on_recovered watch status w).1 ≡ healthy
  unfolding on_recovered can_transition
  recovers status w h =
      rw (emit_then watch.recovered Severity.info (watch.ending status) (to_state watch healthy) w)
        (ground (
          arith,
          to_state_lem watch hooks wired host reads acts healthy
              (emit watch.events watch.recovered watch.component Severity.info (watch.ending status)
                w).1,
          host.watches watch.recovered watch.component Severity.info (watch.ending status) w,
        ))

  gives_up :
      (status : S) (w : W)
      → hooks.get_state w ≡ degraded
      → hooks.get_state (on_exhausted watch status w).1 ≡ failed
  unfolding on_exhausted can_transition
  gives_up status w h =
      rw
        (emit_then watch.exhausted Severity.critical (watch.reading status)
          (when_given watch.hooks escalate_to_failed) w)
        (ground (
          arith,
          escalated watch hooks wired host reads acts
              (emit watch.events watch.exhausted watch.component Severity.critical
                (watch.reading status) w).1,
          host.watches watch.exhausted watch.component Severity.critical (watch.reading status) w,
        ))

  -- The last step, by whether there were actions.
  exhausts :
      (actions : List (Action W Unit)) (status : S) (t : Monitor W S)
      → hooks.get_state t.world ≡ degraded
      → (let x : Result Unit × Monitor W S = elim actions [
        | [] ↦ (ok tt, t)
        | a ∷ more ↦ outside (on_exhausted watch status) t
      ] in
          (hooks.get_state x.1.world ≡ breach_ends true actions) × (x.1.breaching ≡ t.breaching))
  exhausts [] status t h = (h, refl)
  exhausts (a ∷ more) status t h = (gives_up status t.world h, refl)

  ends :
      (status : S) (t : Monitor W S)
      → hooks.get_state t.world ≡ degraded
      → (hooks.get_state (after_actions watch status t).1.world
          ≡ breach_ends t.breaching watch.actions)
        × ((after_actions watch status t).1.breaching ≡ t.breaching)
  unfolding after_actions
  ends status t h = elim (Bool-cases t.breaching) [
    | inl up ↦ let (p, q) = exhausts watch.actions status t h in rw up (p, q ∙ up)
    | inr down ↦ rw down (recovers status t.world h, refl)
  ]

  acting_keeps :
      (status : S) (t : Monitor W S)
      → hooks.get_state t.world ≡ degraded
      → hooks.get_state (run_actions watch watch.actions status t).1.world ≡ degraded
  acting_keeps status t h =
      (run_actions-Keeps watch (λ s. hooks.get_state s.world ≡ degraded)
          (record { at = λ s h. reads s.world ∙ h }) (λ status. record { at = λ s h. h })
          watch.actions status (each watch.actions acts)).at
        t h
    where
      each :
          (actions : List (Action W Unit))
          → All (λ action. LeavesState hooks action) actions
          → All
              (λ action.
                Keeps
                  (λ (s : Monitor W S). hooks.get_state s.world ≡ degraded)
                  (outside {S = S} action))
              actions
      each [] a = tt
      each (a ∷ rest) (l, ls) = (record { at = λ s h. l s.world ∙ h }, each rest ls)

  to_degraded :
      (w : W)
      → hooks.get_state w ≡ healthy
      → hooks.get_state (to_state watch degraded w).1 ≡ degraded
  unfolding can_transition
  to_degraded w h = ground (arith, to_state_lem watch hooks wired host reads acts degraded w)

  -- A breach from HEALTHY, once `_on_low` or `_on_high` returned: the flag it leaves says where the
  -- runtime is.
  breach_outcome :
      (status : S) (t : Monitor W S)
      → hooks.get_state t.world ≡ healthy
      → (on_breach watch status t).0 ≡ ok tt
      → hooks.get_state (on_breach watch status t).1.world
        ≡ breach_ends (on_breach watch status t).1.breaching watch.actions
  unfolding on_breach
  breach_outcome status t h fine =
      let tell : Action (Monitor W S) Unit =
        outside (
          emit watch.events watch.entered watch.component Severity.warning
            (watch.reading status)) in
      let move : Action (Monitor W S) Unit = outside (to_state watch degraded) in
      let act : S → Action (Monitor W S) Unit = λ status'. after_actions watch status' in
      let (u, told, one) =
        bind-inv tell (λ _. move >> (run_actions watch watch.actions status >>= act)) t tt fine in
      let fine' = ap (λ (x : Result Unit × Monitor W S). x.0) (sym one) ∙ fine in
      let (v, moved_, two) =
        bind-inv move (λ _. run_actions watch watch.actions status >>= act) (tell t).1 tt fine' in
      let fine'' = ap (λ (x : Result Unit × Monitor W S). x.0) (sym two) ∙ fine' in
      let (st', ran, three) =
        bind-inv (run_actions watch watch.actions status) act (move (tell t).1).1 tt fine'' in
      let deg = to_degraded (tell t).1.world (
        host.watches watch.entered watch.component Severity.warning (watch.reading status) t.world
        ∙ h) in
      let (p, q) =
        ends st' (run_actions watch watch.actions status (move (tell t).1).1).1
          (acting_keeps status (move (tell t).1).1 deg) in
      rw (one ∙ two ∙ three) (p ∙ ap (λ b. breach_ends b watch.actions) (sym q))

  -- From HEALTHY, a poll that reads a breach for the first time and returns leaves the runtime at
  -- HEALTHY if the flag is down again after its actions, at FAILED if it is still up although there
  -- were actions, and at DEGRADED if there were none. The reading and the actions are assumed not to
  -- move the runtime themselves.
  pub first_breach_outcome :
      (s : Monitor W S) (status : S) (last : Option S)
      → (watch.read s.world).0 ≡ ok status
      → watch.breached status ≡ true
      → s.breaching ≡ false
      → hooks.get_state s.world ≡ healthy
      → (check_once watch s).0 ≡ ok last
      → hooks.get_state (check_once watch s).1.world
        ≡ breach_ends (check_once watch s).1.breaching watch.actions
  first_breach_outcome s status last r b down h fine =
      let t = seen watch status (watch.read s.world).1 s in
      let all = first_breach watch s status r b down in
      let (u, done_, one) =
        bind-inv (on_breach watch status) (λ _. gets (λ (s : Monitor W S). s.status)) t last
          (ap (λ (x : Result (Option S) × Monitor W S). x.0) (sym all) ∙ fine) in
      rw (all ∙ one) (breach_outcome status t (reads s.world ∙ h) (done_ ∙ ap ok refl))
