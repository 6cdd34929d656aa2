-- ===== src/Runtime/Teardown.antt =====
-- The order in which the subsystems are stopped.
use edge_sentinel.Runtime
use mathlib.Core.List.{reverse_aux}
use edge_sentinel.Prelude.{All, List, [], ap, arith, refl, reverse, ◌∙◌, ◌∷◌, ◌≡◌, ◌≢◌}
use edge_sentinel.Core.Errors.{cancelled}
use edge_sentinel.Core.Effects.{Result, catch, done, err, ok}
use edge_sentinel.Runtime.{Device, Sentinel, Subsystem}
use edge_sentinel.Core.Effects.Laws.{bind-ok}
use edge_sentinel.Core.Lifecycle.{Core}

-- Stops that are not cancelled.
abbrev pub IsUncancelled : {W : Type 0} → List (Subsystem W) → Type 0
IsUncancelled {W} subsystems = All (λ s. (c : W) → (s.stop c).0 ≢ err cancelled) subsystems

-- Each subsystem stopped, the last one first, whatever the stops return.
unfoldable pub stopped_in_reverse : {W : Type 0} → List (Subsystem W) → W → W
stopped_in_reverse [] c = c
stopped_in_reverse (s ∷ rest) c = (s.stop (stopped_in_reverse rest c)).1

-- Each stopped, the first one first.
stopped_in_order : {W : Type 0} → List (Subsystem W) → W → W
stopped_in_order [] c = c
stopped_in_order (s ∷ rest) c = stopped_in_order rest (s.stop c).1

module _ {W : Type 0} where
  All-reverse_aux :
      (xs ys : List (Subsystem W))
      → IsUncancelled xs
      → IsUncancelled ys
      → IsUncancelled (reverse_aux xs ys)
  All-reverse_aux [] ys p q = q
  All-reverse_aux (x ∷ xs) ys p q = All-reverse_aux xs (x ∷ ys) p.1 (p.0, q)

  in_order-reverse_aux :
      (xs ys : List (Subsystem W)) (c : W)
      → stopped_in_order (reverse_aux xs ys) c ≡ stopped_in_order ys (stopped_in_reverse xs c)
  unfolding stopped_in_order stopped_in_reverse
  in_order-reverse_aux [] ys c = refl
  in_order-reverse_aux (x ∷ xs) ys c = in_order-reverse_aux xs (x ∷ ys) c

module _ {A P : Type 0} (guard : Sentinel A P) where
  swallows :
      (s : Subsystem (Core (Device A))) (c : Core (Device A))
      → (s.stop c).0 ≢ err cancelled
      → catch s.stop (λ e. done) c ≡ (ok tt, (s.stop c).1)
  swallows s c h = ground (arith, h)

  stop_all_lem :
      (xs : List (Subsystem (Core (Device A)))) (c : Core (Device A))
      → IsUncancelled xs
      → Runtime.stop_all xs c ≡ (ok tt, stopped_in_order xs c)
  unfolding Runtime.stop_all stopped_in_order
  stop_all_lem [] c p = refl
  stop_all_lem (s ∷ rest) c p =
      let one = swallows s c (p.0 c) in
      bind-ok (catch s.stop (λ e. done)) (λ _. Runtime.stop_all rest) c tt
        (ap (λ (x : Result Unit × Core (Device A)). x.0) one)
      ∙ ap (λ (x : Result Unit × Core (Device A)). Runtime.stop_all rest x.1) one
      ∙ stop_all_lem rest (s.stop c).1 p.1

  -- Stopping the runtime's subsystems stops every one of them once, the last registered first, each in
  -- what the one before it left, whether that returned or raised, and returns, if no stop is cancelled.
  pub on_stop_outcome :
      (c : Core (Device A))
      → IsUncancelled guard.subsystems
      → Runtime.on_stop guard c ≡ (ok tt, stopped_in_reverse guard.subsystems c)
  unfolding Runtime.on_stop stopped_in_order
  on_stop_outcome c p =
      stop_all_lem (reverse guard.subsystems) c (All-reverse_aux guard.subsystems [] p tt)
      ∙ ap (λ d. (ok tt, d)) (in_order-reverse_aux guard.subsystems [] c)
