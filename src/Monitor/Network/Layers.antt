-- ===== src/Monitor/Network/Layers.antt =====
-- What a round of the network monitor finds.
use edge_sentinel.Prelude.{
  Bool, List, Option-cases, [], ap, arith, false, if◌then◌else◌, inl, inr, length, none, not, refl,
  some, sym, true, ℕ, ◌==◌, ◌∙◌, ◌∷◌, ◌≡◌,
}
use edge_sentinel.Core.Effects.{Action, Result, catch, done, gets, modify, ok, pure, ◌>>=◌, ◌>>◌}
use edge_sentinel.Core.Effects.Laws.{bind-inv}
use edge_sentinel.Monitor.Network.{
  NetworkLayer, NetworkMonitor, NetworkStatus, Polled, check_once, count_checks, has_changed,
  is_fully_connected, layer_order, on_change, outside, probe,
}

-- The layers that have a check, in order.
abbrev configured : {W : Type 0} → NetworkMonitor W → List NetworkLayer → List NetworkLayer
configured monitor [] = []
configured monitor (l ∷ rest) = elim (monitor.checks l) [
  | none ↦ configured monitor rest
  | some check ↦ l ∷ configured monitor rest
]

-- The one list begins with the other.
abbrev IsPrefix : List NetworkLayer → List NetworkLayer → Type 0
IsPrefix [] ys = Unit
IsPrefix (x ∷ xs) [] = ⊥
IsPrefix (x ∷ xs) (y ∷ ys) = (x ≡ y) × IsPrefix xs ys

prefix_full : (xs ys : List NetworkLayer) → IsPrefix xs ys → length xs ≡ length ys → xs ≡ ys
prefix_full [] [] p h = refl
prefix_full [] (y ∷ ys) p h = ground arith
prefix_full (x ∷ xs) [] p h = absurd p
prefix_full (x ∷ xs) (y ∷ ys) (e, p) h =
    rw e (ap (λ zs. y ∷ zs) (prefix_full xs ys p (ground arith)))

equal_numbers : (a b : ℕ) → (a == b) ≡ true → a ≡ b
equal_numbers a b h = ground arith

module _ {W : Type 0} (monitor : NetworkMonitor W) where
  count-length :
      (layers : List NetworkLayer)
      → count_checks monitor.checks layers ≡ length (configured monitor layers)
  count-length [] = refl
  count-length (l ∷ rest) = elim (Option-cases (monitor.checks l)) [
    | inl n ↦ rw (n, configured) (omega (arith, count-length rest))
    | inr (check, y) ↦ rw (y, configured) (omega (arith, count-length rest))
  ]

  -- A check that answered, or failed.
  abbrev after_check :
      NetworkLayer → Action W (List NetworkLayer) → Bool → Action W (List NetworkLayer)
  after_check l rest passed =
      if not passed then pure [] else (do reachable ← rest; pure (l ∷ reachable))

  probe-IsPrefix :
      (layers : List NetworkLayer) (w : W) (r : List NetworkLayer)
      → (probe monitor layers w).0 ≡ ok r
      → IsPrefix r (configured monitor layers)
  unfolding probe
  probe-IsPrefix [] w r h = (let e : r ≡ [] = ground arith in rw e tt)
  probe-IsPrefix (l ∷ rest) w r h = elim (Option-cases (monitor.checks l)) [
    | inl n ↦ let h' = (rw (n, probe) at h) in rw (n, configured) (probe-IsPrefix rest w r h')
    | inr (check, y) ↦
        let h' = (rw (y, probe) at h) in
        let tried = catch check (λ e. pure false) in
        let (passed, ran, one) = bind-inv tried (after_check l (probe monitor rest)) w r h' in
        let h'' = ap (λ (x : Result (List NetworkLayer) × W). x.0) (sym one) ∙ h' in
        rw (y, configured) (go passed (tried w).1 h'' (λ w'. probe-IsPrefix rest w'))
  ]
    where
      go :
          (passed : Bool) (w' : W)
          → (after_check l (probe monitor rest) passed w').0 ≡ ok r
          → ((w' : W) (r : List NetworkLayer)
              → (probe monitor rest w').0 ≡ ok r
              → IsPrefix r (configured monitor rest))
          → IsPrefix r (l ∷ configured monitor rest)
      go false w' e below = let e' : r ≡ [] = ground arith in rw e' tt
      go true w' e below =
          let (more, ran, one) =
            bind-inv (probe monitor rest) (λ reachable. pure (l ∷ reachable)) w' r e in
          let e' : r ≡ l ∷ more =
            ground (arith, ap (λ (x : Result (List NetworkLayer) × W). x.0) (sym one) ∙ e) in
          rw e' (refl, below w' more ran)

  -- A round that returns found configured layers in their order, and none beyond one that did not
  -- answer: a beginning of the list of configured layers.
  check_once_layers :
      (s : Polled W) (status : NetworkStatus)
      → (check_once monitor s).0 ≡ ok status
      → IsPrefix status.reachable (configured monitor layer_order)
  unfolding check_once
  check_once_layers s status h =
      let rest : List NetworkLayer → Action (Polled W) NetworkStatus = λ reachable.
        gets (λ (s : Polled W). s.status) >>= λ previous.
        (let current : NetworkStatus = record { reachable = reachable } in
          modify (λ (s : Polled W). record {
            status = some current;
            polling = s.polling;
            world = s.world;
          })
          >> ((if has_changed monitor previous current
                then outside (on_change monitor current)
                else done)
              >> pure current)) in
      let (reachable, ran, one) = bind-inv (outside (probe monitor layer_order)) rest s status h in
      let h' = ap (λ (x : Result NetworkStatus × Polled W). x.0) (sym one) ∙ h in
      let current : NetworkStatus = record { reachable = reachable } in
      let t = (outside (probe monitor layer_order) s).1 in
      let (u, changed, two) =
        bind-inv
          (if has_changed monitor t.status current
            then outside (on_change monitor current)
            else done)
          (λ _. pure current)
          (record { status = some current; polling = t.polling; world = t.world }) status h' in
      let found : status ≡ current =
        ground (arith, ap (λ (x : Result NetworkStatus × Polled W). x.0) (sym two) ∙ h') in
      rw found (probe-IsPrefix layer_order s.world reachable ran)

  -- If a round returns a status that counts as fully connected, all configured layers answered.
  fully_connected_layers :
      (s : Polled W) (status : NetworkStatus)
      → (check_once monitor s).0 ≡ ok status
      → is_fully_connected monitor (some status) ≡ true
      → status.reachable ≡ configured monitor layer_order
  unfolding is_fully_connected
  fully_connected_layers s status h full =
      prefix_full status.reachable (configured monitor layer_order) (check_once_layers s status h)
        (equal_numbers _ _ full ∙ count-length layer_order)
