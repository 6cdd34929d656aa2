-- ===== src/Integrations/Subscription/History.antt =====
-- What any sequence of attaching and detaching leaves on a bus.
use edge_sentinel.Prelude.{
  All, Bool, List, [], ap, arith, false, if◌then◌else◌, refl, true, ℕ, ◌++◌, ◌+◌, ◌-◌, ◌==◌, ◌∙◌,
  ◌∷◌, ◌≡◌, ◌≢◌,
}
use edge_sentinel.Core.Events.{EventBus, remove, subscribe, unsubscribe}
use edge_sentinel.Integrations.Subscription.{
  Link, Move, attach, attaches, detach, detaches, move, moves, subscribes, unsubscribes,
}

-- How often a handler is on the list, and the list without it.
abbrev pub count : ℕ → List ℕ → ℕ
count h [] = 0
count h (k ∷ ks) = (if k == h then 1 else 0) + count h ks

abbrev pub without : ℕ → List ℕ → List ℕ
without h [] = []
without h (k ∷ ks) = if k == h then without h ks else k ∷ without h ks

-- The calls of others alone.
unfoldable pub others : List Move → EventBus → EventBus
unfolding subscribe unsubscribe
others [] bus = bus
others (attaches ∷ ms) bus = others ms bus
others (detaches ∷ ms) bus = others ms bus
others (subscribes h ∷ ms) bus = others ms (subscribe h bus)
others (unsubscribes h ∷ ms) bus = others ms (unsubscribe h bus)

-- The others' handlers are not the publisher's.
abbrev IsForeign : ℕ → Move → Type 0
IsForeign handler attaches = Unit
IsForeign handler detaches = Unit
IsForeign handler (subscribes h) = h ≢ handler
IsForeign handler (unsubscribes h) = h ≢ handler

module _ (h : ℕ) where
  pub count-append :
      (ks : List ℕ) (k : ℕ) → count h (ks ++ (k ∷ [])) ≡ count h ks + count h (k ∷ [])
  count-append [] k = omega arith
  count-append (j ∷ js) k = ground (arith, count-append js k)

  pub count-remove : (ks : List ℕ) → count h (remove h ks) ≡ count h ks - 1
  count-remove [] = omega arith
  count-remove (j ∷ js) = ground (arith, count-remove js)

  without-remove : (ks : List ℕ) → without h (remove h ks) ≡ without h ks
  without-remove [] = refl
  without-remove (j ∷ js) = ground (arith, without-remove js)

  pub count-remove_other : (k : ℕ) (ks : List ℕ) → k ≢ h → count h (remove k ks) ≡ count h ks
  count-remove_other k [] n = refl
  count-remove_other k (j ∷ js) n = ground (arith, count-remove_other k js n)

  without-remove_other :
      (k : ℕ) (ks : List ℕ) → k ≢ h → without h (remove k ks) ≡ remove k (without h ks)
  without-remove_other k [] n = refl
  without-remove_other k (j ∷ js) n = ground (arith, without-remove_other k js n)

  -- The publisher's handler is on the bus once if it is attached, and not otherwise.
  IsOnce : Link → Type 0
  IsOnce l = count h l.bus.handlers ≡ (if l.attached then 1 else 0)

  append_own : (ks : List ℕ) → without h (ks ++ (h ∷ [])) ≡ without h ks
  append_own [] = ground arith
  append_own (k ∷ ks) = ground (arith, append_own ks)

  append_other :
      (k : ℕ) (ks : List ℕ) → k ≢ h → without h (ks ++ (k ∷ [])) ≡ without h ks ++ (k ∷ [])
  append_other k [] n = ground (arith, n)
  append_other k (j ∷ js) n = ground (arith, append_other k js n)

  attach-IsOnce :
      (b : Bool) (bus : EventBus)
      → IsOnce (record { attached = b; bus = bus })
      → IsOnce (attach h (record { attached = b; bus = bus }))
  unfolding IsOnce attach subscribe
  attach-IsOnce true bus p = p
  attach-IsOnce false bus p = ground (arith, count-append bus.handlers h, p)

  detach-IsOnce :
      (b : Bool) (bus : EventBus)
      → IsOnce (record { attached = b; bus = bus })
      → IsOnce (detach h (record { attached = b; bus = bus }))
  unfolding IsOnce detach unsubscribe
  detach-IsOnce true bus p = ground (arith, count-remove bus.handlers, p)
  detach-IsOnce false bus p = p

  move-IsOnce : (m : Move) (l : Link) → IsForeign h m → IsOnce l → IsOnce (move h m l)
  unfolding IsOnce move subscribe unsubscribe
  move-IsOnce attaches l f p = attach-IsOnce l.attached l.bus p
  move-IsOnce detaches l f p = detach-IsOnce l.attached l.bus p
  move-IsOnce (subscribes k) l f p = ground (arith, count-append l.bus.handlers k, f, p)
  move-IsOnce (unsubscribes k) l f p = ground (arith, count-remove_other k l.bus.handlers f, p)

  -- A publisher's own calls do not show to the others.
  attach-hidden :
      (b : Bool) (bus : EventBus)
      → without h (attach h (record { attached = b; bus = bus })).bus.handlers
        ≡ without h bus.handlers
  unfolding attach subscribe
  attach-hidden true bus = refl
  attach-hidden false bus = append_own bus.handlers

  detach-hidden :
      (b : Bool) (bus : EventBus)
      → without h (detach h (record { attached = b; bus = bus })).bus.handlers
        ≡ without h bus.handlers
  unfolding detach unsubscribe
  detach-hidden true bus = without-remove bus.handlers
  detach-hidden false bus = refl

  -- A bus with the others alone.
  abbrev bare : EventBus → EventBus
  bare bus = record { handlers = without h bus.handlers }

  moves-hidden :
      (ms : List Move) (l : Link)
      → All (IsForeign h) ms
      → without h (moves h ms l).bus.handlers ≡ (others ms (bare l.bus)).handlers
  unfolding moves move others subscribe unsubscribe
  moves-hidden [] l f = refl
  moves-hidden (attaches ∷ ms) l f =
      moves-hidden ms (attach h l) f.1
      ∙ ap (λ ks. (others ms (record { handlers = ks })).handlers) (attach-hidden l.attached l.bus)
  moves-hidden (detaches ∷ ms) l f =
      moves-hidden ms (detach h l) f.1
      ∙ ap (λ ks. (others ms (record { handlers = ks })).handlers) (detach-hidden l.attached l.bus)
  moves-hidden (subscribes k ∷ ms) l f =
      moves-hidden ms (move h (subscribes k) l) f.1
      ∙ ap (λ ks. (others ms (record { handlers = ks })).handlers)
          (append_other k l.bus.handlers f.0)
  moves-hidden (unsubscribes k ∷ ms) l f =
      moves-hidden ms (move h (unsubscribes k) l) f.1
      ∙ ap (λ ks. (others ms (record { handlers = ks })).handlers)
          (without-remove_other k l.bus.handlers f.0)

  moves-IsOnce :
      (ms : List Move) (l : Link) → All (IsForeign h) ms → IsOnce l → IsOnce (moves h ms l)
  unfolding moves
  moves-IsOnce [] l f p = p
  moves-IsOnce (m ∷ ms) l f p = moves-IsOnce ms (move h m l) f.1 (move-IsOnce m l f.0 p)

  -- From a bus without the publisher's handler, after any calls of `attach` and `detach`, repeated or
  -- not, and of others with handlers of their own: the publisher's handler is on the bus
  -- exactly once while it is attached and not at all otherwise, and the rest of the bus is what the
  -- others' calls alone make of it.
  pub attachment_history :
      (ms : List Move) (bus : EventBus)
      → count h bus.handlers ≡ 0
      → All (IsForeign h) ms
      → (count h (moves h ms (record { attached = false; bus = bus })).bus.handlers
          ≡ (if (moves h ms (record { attached = false; bus = bus })).attached then 1 else 0))
        × (without h (moves h ms (record { attached = false; bus = bus })).bus.handlers
            ≡ (others ms (record { handlers = without h bus.handlers })).handlers)
  unfolding IsOnce
  attachment_history ms bus fresh f =
      (moves-IsOnce ms (record { attached = false; bus = bus }) f fresh, moves-hidden ms _ f)
