-- ===== src/Durability/Operations/Listed.antt =====
-- The replay of a start, row by row of the journal.
use edge_sentinel.Prelude.{List, ap, false, if_false, if_true, map, true, ◌∙◌, ◌∷◌, ◌≡◌}
use edge_sentinel.Durability.Journal.{Intent, row_to_intent}
use edge_sentinel.Durability.Operations.{Context, Handler, replay_all, replay_one}
use edge_sentinel.Durability.Operations.Replay.{IsUncancelled, replay_one_returns}
use edge_sentinel.Persistence.Database.{IntentRow, is_unfinished, keep_rows}
use edge_sentinel.Core.Effects.Laws.{bind-ok}

module _ {S P : Type 0} (context : Context S P) (registry : List (Handler S P))
    (calm : IsUncancelled registry) where
  -- The first intent, and then the others.
  passes :
      (intent : Intent P) (rest : List (Intent P)) (s : S)
      → replay_all context registry (intent ∷ rest) s
        ≡ replay_all context registry rest (replay_one context registry intent s).1
  unfolding replay_all
  passes intent rest s =
      bind-ok (replay_one context registry intent) (λ u. replay_all context registry rest) s tt
        (replay_one_returns context registry calm intent s)

  abbrev pub to_replay : List IntentRow → List (Intent P)
  to_replay rows = map (row_to_intent context.json) (keep_rows is_unfinished rows)

  pub replays_first :
      (x : IntentRow) (rows : List IntentRow) (s : S)
      → is_unfinished x ≡ true
      → replay_all context registry (to_replay (x ∷ rows)) s
        ≡ replay_all context registry
            (to_replay rows)
            (replay_one context registry (row_to_intent context.json x) s).1
  replays_first x rows s u =
      ap (λ rest. replay_all context registry (map (row_to_intent context.json) rest) s)
        (if_true (is_unfinished x) (x ∷ keep_rows is_unfinished rows) (keep_rows is_unfinished rows)
          u)
      ∙ passes (row_to_intent context.json x) (to_replay rows) s

  pub skips_first :
      (x : IntentRow) (rows : List IntentRow) (s : S)
      → is_unfinished x ≡ false
      → replay_all context registry (to_replay (x ∷ rows)) s
        ≡ replay_all context registry (to_replay rows) s
  skips_first x rows s u =
      ap (λ rest. replay_all context registry (map (row_to_intent context.json) rest) s)
        (if_false (is_unfinished x) (x ∷ keep_rows is_unfinished rows)
          (keep_rows is_unfinished rows) u)
