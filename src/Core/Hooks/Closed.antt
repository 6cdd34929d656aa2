-- ===== src/Core/Hooks/Closed.antt =====
-- What every subsystem asks of the runtime's state, whichever it is: a property of the state that such
-- requests keep.
use edge_sentinel.Prelude.{
  Bool-cases, List, Option, String, [], arith, false, inl, inr, subst, sym, true, ◌∷◌, ◌≡◌,
}
use edge_sentinel.Core.States.{RuntimeState, degraded, failed, healthy, offline, state_mem}
use edge_sentinel.Core.Effects.{Action}
use edge_sentinel.Core.Events.{Bus, Severity, Value, emit}
use edge_sentinel.Core.Hooks.{
  Hooks, IsHost, apply_if_managed, escalate_to_failed, moved, unsafe_to_escalate,
}
use edge_sentinel.Core.Hooks.Laws.{state-apply, state-escalate}
use edge_sentinel.Core.Effects.Keeps.{Keeps}

-- The states between which the monitors move the runtime.
abbrev pub running_states : List RuntimeState
running_states = healthy ∷ degraded ∷ offline ∷ []

pub record IsClosed (P : RuntimeState → Type 0) : Type 0 where
  pub moves :
      (s t : RuntimeState)
      → P s
      → state_mem s running_states ≡ true
      → state_mem t running_states ≡ true
      → P (moved s t)
  pub fails : (s : RuntimeState) → P s → state_mem s unsafe_to_escalate ≡ false → P (moved s failed)

-- Calls that leave the runtime's lifecycle state alone.
abbrev pub LeavesState : {W A : Type 0} → Hooks W → Action W A → Type 0
LeavesState {W} hooks m = (w : W) → hooks.get_state (m w).1 ≡ hooks.get_state w

moved_running :
    (s t : RuntimeState)
    → state_mem s running_states ≡ true
    → state_mem t running_states ≡ true
    → state_mem (moved s t) running_states ≡ true
moved_running s t hs ht = ground arith

-- A call that leaves the state alone keeps what holds of it.
pub leaves-Keeps :
    (P : RuntimeState → Type 0) {W A : Type 0} (hooks : Hooks W) (m : Action W A)
    → LeavesState hooks m
    → Keeps (λ w. P (hooks.get_state w)) m
leaves-Keeps P hooks m l = record { at = λ w p. subst P (sym (l w)) p }

module _ {P : RuntimeState → Type 0} (closed : IsClosed P) {W : Type 0} (hooks : Hooks W)
    {bus : Option (Bus W)} (host : IsHost hooks bus) where
  pub closed-apply :
      (managed : List RuntimeState) (target : RuntimeState)
      → ((s : RuntimeState) → state_mem s managed ≡ true → state_mem s running_states ≡ true)
      → state_mem target running_states ≡ true
      → Keeps (λ w. P (hooks.get_state w)) (apply_if_managed hooks managed target)
  closed-apply managed target within there = record {
    at = λ w p.
        (rw (state-apply hooks host managed target w)
          (elim (Bool-cases (state_mem (hooks.get_state w) managed)) [
            | inl e ↦ rw e (closed.moves (hooks.get_state w) target p (within _ e) there)
            | inr e ↦ rw e p
          ]));
  }

  pub closed-escalate : Keeps (λ w. P (hooks.get_state w)) (escalate_to_failed hooks)
  closed-escalate = record {
    at = λ w p.
        (rw (state-escalate hooks host w)
          (elim (Bool-cases (state_mem (hooks.get_state w) unsafe_to_escalate)) [
            | inl e ↦ rw e p
            | inr e ↦ rw e (closed.fails (hooks.get_state w) p e)
          ]));
  }

  pub closed-emit :
      (type component : String) (severity : Severity) (metadata : List (String × Value))
      → Keeps (λ w. P (hooks.get_state w)) (emit bus type component severity metadata)
  closed-emit type component severity metadata =
      leaves-Keeps P hooks (emit bus type component severity metadata)
        (host.watches type component severity metadata)

  -- A request for a running state, made in one.
  pub closed-request :
      (target : RuntimeState)
      → state_mem target running_states ≡ true
      → Keeps
          (λ w. P (hooks.get_state w) × (state_mem (hooks.get_state w) running_states ≡ true))
          (hooks.set_state target)
  closed-request target there = record {
    at = λ w p.
        (rw (host.follows target w) (
          closed.moves (hooks.get_state w) target p.0 p.1 there,
          moved_running (hooks.get_state w) target p.1 there,
        ));
  }
