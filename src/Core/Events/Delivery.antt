-- ===== src/Core/Events/Delivery.antt =====
-- What a publication comes to: every handler runs, in the order of subscription, whatever others raise.
use edge_sentinel.Prelude.{List, [], refl, ℕ, ◌∷◌, ◌≡◌}
use edge_sentinel.Core.Effects.{Action}
use edge_sentinel.Core.Events.{Event, EventBus, gather, publish}

module _ {W : Type 0} (run : ℕ → Event → Action W Unit) where
  -- The handlers one after another, with what they raise forgotten.
  abbrev pub served : List ℕ → Event → W → W
  served [] event w = w
  served (h ∷ hs) event w = served hs event (run h event w).1

  gather-served :
      (hs : List ℕ) (event : Event) (w : W) → (gather run hs event w).1 ≡ served hs event w
  unfolding gather
  gather-served [] event w = refl
  gather-served (h ∷ hs) event w = gather-served hs event (run h event w).1

  pub publish-served :
      (bus : EventBus) (event : Event) (w : W)
      → publish run bus event w ≡ served bus.handlers event w
  unfolding publish
  publish-served bus event w = gather-served bus.handlers event w
