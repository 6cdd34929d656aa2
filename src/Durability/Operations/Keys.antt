-- ===== src/Durability/Operations/Keys.antt =====
-- The primary key of the table of intents, and the rows of other intents, over an attempt.
use edge_sentinel.Persistence.Database
use edge_sentinel.Prelude.{
  Bool-cases, List, Option, String, [], arith, eq_iff, false, if◌then◌else◌, inl, inr, refl, some,
  str_eq, true, ℕ, ◌+◌, ◌∙◌, ◌∷◌, ◌≡◌,
}
use edge_sentinel.Core.Events.{Severity, Value}
use edge_sentinel.Durability.Operations.Rows.{LeavesRow}
use edge_sentinel.Durability.Operations.Kept.{IsKept, execute-Keeps}
use edge_sentinel.Core.Effects.Keeps.{Keeps}
use edge_sentinel.Durability.Journal.{Holds, Intent}
use edge_sentinel.Durability.Operations.{Context, Operation, execute, tell}
use edge_sentinel.Persistence.Database.{
  Database, IntentRow, IntentStatus, find_intent, set_intent, update_rows,
}

abbrev pub count : String → List IntentRow → ℕ
count id [] = 0
count id (row ∷ rows) = (if str_eq row.id id then 1 else 0) + count id rows

count-update_rows :
    (id id' : String) (status : IntentStatus) (attempts : ℕ) (last_error : Option String) (now : ℕ)
    (rows : List IntentRow)
    → count id (update_rows (set_intent id' status attempts last_error now) rows) ≡ count id rows
count-update_rows id id' status attempts last_error now [] = refl
count-update_rows id id' status attempts last_error now (row ∷ rows) =
    ground (arith, count-update_rows id id' status attempts last_error now rows)

-- The table has one row of the identifier.
abbrev pub Once : {S : Type 0} → Holds S → String → S → Type 0
Once holds id s = count id (holds.get s).intents ≡ 1

-- An attempt leaves as many rows of an identifier as there were.
module _ {S P : Type 0} (context : Context S P) {A : Type 0} (op : Operation S P A) (id : String)
    (tells : (type : String) (severity : Severity) (metadata : List (String × Value))
      → Keeps (Once context.holds id) (tell context type severity metadata)) where
  count-IsKept : (i : String) → IsKept i (λ d. count id d.intents ≡ 1)
  unfolding Database.update_intent
  count-IsKept i status attempts last_error d p = elim (Bool-cases d.connected) [
    | inl c ↦ rw c (count-update_rows id i status attempts last_error d.now d.intents ∙ p)
    | inr c ↦ rw c p
  ]

  pub execute-Once :
      (intent : Intent P)
      → Keeps (Once context.holds id) (op.func intent.payload)
      → Keeps (Once context.holds id) (execute context op intent)
  execute-Once intent runs =
      execute-Keeps context op (λ d. count id d.intents ≡ 1) intent (count-IsKept intent.id) tells
        runs

-- An attempt at another intent leaves a row as it is.
module _ {S P : Type 0} (context : Context S P) {A : Type 0} (op : Operation S P A) (id : String)
    (tells : (type : String) (severity : Severity) (metadata : List (String × Value))
      → LeavesRow context.holds id (tell context type severity metadata)) where
  find-other :
      (i : String) (status : IntentStatus) (attempts : ℕ) (last_error : Option String) (now : ℕ)
      (rows : List IntentRow)
      → str_eq i id ≡ false
      → find_intent id (update_rows (set_intent i status attempts last_error now) rows)
        ≡ find_intent id rows
  find-other i status attempts last_error now [] n = refl
  find-other i status attempts last_error now (row ∷ rows) n = ground (
    arith,
    eq_iff row.id i,
    eq_iff row.id id,
    eq_iff i id,
    find-other i status attempts last_error now rows n,
  )

  row-IsKept :
      (row : IntentRow) (i : String)
      → str_eq i id ≡ false
      → IsKept i (λ d. (d.connected ≡ true) × (find_intent id d.intents ≡ some row))
  unfolding Database.update_intent
  row-IsKept row i n status attempts last_error d (c, f) =
      rw c (refl, find-other i status attempts last_error d.now d.intents n ∙ f)

  pub execute-LeavesRow :
      (intent : Intent P)
      → str_eq intent.id id ≡ false
      → LeavesRow context.holds id (op.func intent.payload)
      → LeavesRow context.holds id (execute context op intent)
  execute-LeavesRow intent n runs row =
      (execute-Keeps context op (λ d. (d.connected ≡ true) × (find_intent id d.intents ≡ some row))
        intent (row-IsKept row intent.id n)
        (λ type severity metadata. record { at = tells type severity metadata row })
        (record { at = runs row })).at
