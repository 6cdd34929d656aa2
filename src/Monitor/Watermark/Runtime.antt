-- ===== src/Monitor/Watermark/Runtime.antt =====
-- What a poll does to the runtime's lifecycle state.
use edge_sentinel.Prelude.{All, List, [], arith, if◌then◌else◌, some, true, ◌∷◌, ◌≡◌}
use edge_sentinel.Core.States.{RuntimeState, can_transition, failed, state_mem}
use edge_sentinel.Core.Effects.{Action}
use edge_sentinel.Core.Hooks.{
  Hooks, IsHost, escalate_to_failed, moved, unsafe_to_escalate, when_given,
}
use edge_sentinel.Core.Hooks.Closed.{
  IsClosed, LeavesState, closed-apply, closed-emit, closed-escalate, leaves-Keeps, running_states,
}
use edge_sentinel.Core.Effects.Keeps.{Keeps}
use edge_sentinel.Monitor.Watermark.{Monitor, Watch, check_once, managed_states, outside, to_state}
use edge_sentinel.Monitor.Watermark.Parts.{check_once-Keeps}
use edge_sentinel.Core.Hooks.Laws.{state-apply, state-escalate}

managed-running :
    (s : RuntimeState) → state_mem s managed_states ≡ true → state_mem s running_states ≡ true
managed-running s h = ground arith

ending-IsClosed :
    (end : RuntimeState) → state_mem end unsafe_to_escalate ≡ true → IsClosed (λ s. s ≡ end)
unfolding can_transition
ending-IsClosed end u = record {
  moves = λ s t p hs ht. ground arith;
  fails = λ s p n. ground arith;
}

module _ {W S : Type 0} (watch : Watch W S) (hooks : Hooks W) (wired : watch.hooks ≡ some hooks)
    (host : IsHost hooks watch.events) (reads : LeavesState hooks watch.read)
    (acts : All (λ action. LeavesState hooks action) watch.actions) where
  -- Where the runtime is after `_apply_to_runtime`, if the monitor is wired to it.
  pub to_state_lem :
      (target : RuntimeState) (w : W)
      → hooks.get_state (to_state watch target w).1 ≡ (
          if state_mem (hooks.get_state w) managed_states
          then moved (hooks.get_state w) target
          else hooks.get_state w)
  to_state_lem target w = rw wired (state-apply hooks host managed_states target w)

  pub escalated :
      (w : W)
      → hooks.get_state (when_given watch.hooks escalate_to_failed w).1 ≡ (
          if state_mem (hooks.get_state w) unsafe_to_escalate
          then hooks.get_state w
          else moved (hooks.get_state w) failed)
  escalated w = rw wired (state-escalate hooks host w)

  -- What every request of a poll keeps, the poll keeps.
  pub check_once-closed :
      {P : RuntimeState → Type 0}
      → IsClosed P
      → Keeps (λ (s : Monitor W S). P (hooks.get_state s.world)) (check_once watch)
  check_once-closed {P} closed =
      check_once-Keeps watch (λ s. P (hooks.get_state s.world))
        (record {
          reading = within (leaves-Keeps P hooks watch.read reads);
          observing = λ status. record { at = λ s p. p };
          acting = each watch.actions acts;
          telling = λ type severity metadata.
              within (closed-emit closed hooks host type watch.component severity metadata);
          moving = λ target m. rw wired (
              within (
                closed-apply closed hooks host managed_states target managed-running
                  (managed-running target m)));
          failing = rw wired (within (closed-escalate closed hooks host));
        })
    where
      within :
          {A : Type 0} {m : Action W A}
          → Keeps (λ w. P (hooks.get_state w)) m
          → Keeps (λ (s : Monitor W S). P (hooks.get_state s.world)) (outside {S = S} m)
      within k = record { at = λ s p. k.at s.world p }

      each :
          (actions : List (Action W Unit))
          → All (λ action. LeavesState hooks action) actions
          → All
              (λ action.
                Keeps (λ (s : Monitor W S). P (hooks.get_state s.world)) (outside {S = S} action))
              actions
      each [] a = tt
      each (a ∷ rest) (l, ls) = (within (leaves-Keeps P hooks a l), each rest ls)

  -- A poll never moves a runtime that is STOPPING or STOPPED, whatever it reads, even if all its
  -- actions fail to help.
  shutdown_is_respected :
      (s : Monitor W S) (end : RuntimeState)
      → state_mem end unsafe_to_escalate ≡ true
      → hooks.get_state s.world ≡ end
      → hooks.get_state (check_once watch s).1.world ≡ end
  shutdown_is_respected s end u h = (check_once-closed (ending-IsClosed end u)).at s h
