-- ===== src/Durability/Operations/Settled.antt =====
-- An intent over the starts of the runtime: each replays it until it is settled.
use edge_sentinel.Durability.Operations
use edge_sentinel.Prelude.{
  Bool-cases, List, String, [], ap, arith, eq_iff, false, inl, inr, refl, some, str_eq, subst, suc,
  sym, true, zero, ℕ, ◌+◌, ◌<◌, ◌∙◌, ◌∷◌, ◌≡◌, ◌≤◌, ◌⊎◌,
}
use edge_sentinel.Core.Events.{Severity, Value}
use edge_sentinel.Durability.Operations.Replay.{IsUncancelled, replays_rows}
use edge_sentinel.Persistence.Database.{
  IntentRow, IntentStatus, completed, failed_, find_intent, in_progress, is_unfinished, pending,
}
use edge_sentinel.Durability.Operations.Attempted.{Counted, Own, Spares, Stands, attempted}
use edge_sentinel.Durability.Operations.Listed.{replays_first, skips_first, to_replay}
use edge_sentinel.Durability.Journal.{Intent, row_to_intent}
use edge_sentinel.Durability.Operations.{
  Context, Handler, Operation, find_handler, replay_all, replay_one, replay_pending, tell,
}
use edge_sentinel.Durability.Operations.Keys.{count}

module _ {S P : Type 0} (context : Context S P) (registry : List (Handler S P)) where
  -- The replays of so many starts, one after another.
  unfoldable pub replays : ℕ → S → S
  unfolding replay_pending
  replays zero s = s
  replays (suc n) s = replays n (replay_pending context registry s).1

-- COMPLETED or FAILED, and not among those that a start replays.
abbrev pub IsSettled : IntentRow → Type 0
IsSettled row = ((row.status ≡ completed) ⊎ (row.status ≡ failed_)) × (is_unfinished row ≡ false)

module _ {S P : Type 0} (context : Context S P) (id : String) where
  module _ {A : Type 0} (op : Operation S P A) (registry : List (Handler S P)) (max : ℕ)
      (limited : op.max_attempts ≡ some max)
      (registered : find_handler op.operation registry
        ≡ some (record { operation = op.operation; replay = Operations.replay context op }))
      (calm : IsUncancelled registry)
      (tells : (type : String) (severity : Severity) (metadata : List (String × Value))
        → Spares context id (tell context type severity metadata))
      (runs : (payload : P) → Spares context id (op.func payload))
      (others : (i : Intent P)
        → str_eq i.id id ≡ false
        → Spares context id (replay_one context registry i)) where
    other_first :
        (x row : IntentRow) (s : S)
        → str_eq x.id id ≡ false
        → Own context id row s
        → Own context id row (replay_one context registry (row_to_intent context.json x) s).1
    other_first x row s n (h, one) =
        let (leaves, keeps) = others (row_to_intent context.json x) n in
        (leaves row s h, keeps.at s one)

    spared :
        (rows : List IntentRow) (row : IntentRow) (s : S)
        → count id rows ≡ 0
        → Own context id row s
        → Own context id row
            (replay_all context registry (to_replay context registry calm rows) s).1
    unfolding replay_all
    spared [] row s z o = o
    spared (x ∷ rows) row s z o = elim (Bool-cases (str_eq x.id id)) [
      | inl y ↦ let z' = (rw y at z) in absurd (omega arith)
      | inr n ↦
          let w = (rw n at z) in
          let z' : count id rows ≡ 0 = omega arith in
          elim (Bool-cases (is_unfinished x)) [
            | inl u ↦ rw (replays_first context registry calm x rows s u) (
                spared rows row (replay_one context registry (row_to_intent context.json x) s).1 z'
                  (other_first x row s n o))
            | inr u ↦ rw (skips_first context registry calm x rows s u) (spared rows row s z' o)
          ]
    ]

    -- Among the rows that are replayed, the intent's own.
    reaches_it :
        (x : IntentRow) (rows : List IntentRow) (row : IntentRow) (n : ℕ) (s : S)
        → x ≡ row
        → str_eq x.id id ≡ true
        → count id rows ≡ 0
        → Own context id row s
        → Counted context id op.operation max n row
        → Stands context id op.operation max
            (n + 1)
            (replay_all context registry (to_replay context registry calm (x ∷ rows)) s).1
    reaches_it x rows row n s same y z o (named, below, waits) =
        elim (Bool-cases (is_unfinished x)) [
          | inl u ↦
              let (at_, left) = waits (subst (λ r. is_unfinished r ≡ true) same u) in
              let (row', o', k') =
                attempted context id op registry max limited registered calm tells runs
                  (row_to_intent context.json x) n row s ((eq_iff x.id id).0 y)
                  (ap (λ (r : IntentRow). r.operation) same ∙ named) o named at_ left in
              rw (replays_first context registry calm x rows s u)
                (row', spared rows row' _ z o', k')
          | inr u ↦
              let no : is_unfinished row ≡ false = subst (λ r. is_unfinished r ≡ false) same u in
              rw (skips_first context registry calm x rows s u)
                (row, spared rows row s z o, (named, below, λ v. let w = sym v ∙ no in cc))
        ]

    replayed :
        (rows : List IntentRow) (row : IntentRow) (n : ℕ) (s : S)
        → find_intent id rows ≡ some row
        → count id rows ≡ 1
        → Own context id row s
        → Counted context id op.operation max n row
        → Stands context id op.operation max
            (n + 1)
            (replay_all context registry (to_replay context registry calm rows) s).1
    replayed [] row n s f c o k = cc
    replayed (x ∷ rows) row n s f c o k = elim (Bool-cases (str_eq x.id id)) [
      | inl y ↦
          let f' : some x ≡ some row = (rw y at f) in
          let c' = (rw y at c) in reaches_it x rows row n s (cc) y (omega arith) o k
      | inr m ↦
          let f' : find_intent id rows ≡ some row = (rw m at f) in
          let w = (rw m at c) in
          let c' : count id rows ≡ 1 = omega arith in
          elim (Bool-cases (is_unfinished x)) [
            | inl u ↦ rw (replays_first context registry calm x rows s u) (
                replayed rows row n (replay_one context registry (row_to_intent context.json x) s).1
                  f' c' (other_first x row s m o) k)
            | inr u ↦
                rw (skips_first context registry calm x rows s u) (replayed rows row n s f' c' o k)
          ]
    ]

    start_lem :
        (n : ℕ) (s : S)
        → Stands context id op.operation max n s
        → Stands context id op.operation max (n + 1) (replay_pending context registry s).1
    start_lem n s (row, ((c, f), one), k) =
        let d = context.holds.get s in
        let own : Own context id row (context.holds.put d s) =
          rw (context.holds.get-put d s) ((c, f), one) in
        rw (replays_rows context registry s c)
          (replayed d.intents row n (context.holds.put d s) f one own k)

    starts_lem :
        (n m : ℕ) (s : S)
        → Stands context id op.operation max m s
        → Stands context id op.operation max (m + n) (replays context registry n s)
    unfolding replays
    starts_lem zero m s k = subst (λ i. Stands context id op.operation max i s) (omega arith) k
    starts_lem (suc n) m s k =
        subst
          (λ i.
            Stands context id op.operation max i
              (replays context registry n (replay_pending context registry s).1))
          (omega arith)
          (starts_lem n (m + 1) (replay_pending context registry s).1 (start_lem m s k))

    settled : (row : IntentRow) → is_unfinished row ≡ false → IsSettled row
    settled row h = go row.status refl
      where
        go : (status : IntentStatus) → row.status ≡ status → IsSettled row
        go pending s = let h' = (rw s at h) in cc
        go in_progress s = let h' = (rw s at h) in cc
        go completed s = (inl s, h)
        go failed_ s = (inr s, h)

    -- An intent that has attempts left, of an operation that stays registered and has a `max_attempts`, on
    -- starts that find the database open and whose handlers are not cancelled: its count of attempts never
    -- exceeds `max_attempts`, and after any number of starts, however each attempt ended, it is
    -- COMPLETED or FAILED and no longer replayed, or the starts were fewer than the attempts that it had
    -- left. Events, the function and the replays of other intents are assumed to leave its row alone.
    pub replays_settle :
        (n : ℕ) (row : IntentRow) (s : S)
        → Own context id row s
        → row.operation ≡ op.operation
        → row.attempts < max
        → (row' : IntentRow) × Own context id row' (replays context registry n s)
          × (row'.attempts ≤ max)
          × (IsSettled row' ⊎ (row.attempts + n < max))
    replays_settle n row s o named left =
        let (row', o', (named', below, waits)) =
          starts_lem n row.attempts s (row, o, (named, omega arith, λ u. (refl, left))) in
        (
          row',
          o',
          below,
          elim (Bool-cases (is_unfinished row')) [
            | inl u ↦ inr (waits u).1
            | inr over ↦ inl (settled row' over)
          ],
        )
