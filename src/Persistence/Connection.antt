-- ===== src/Persistence/Connection.antt =====
-- src/edgesentinel/persistence/database.py: the connection and the statements of a caller. What sqlite3
-- does with them is a parameter. The lock makes each method one step.
pub mod Transactions
use edge_sentinel.Prelude.{
  Bool, List, Option, String, [], false, if◌then◌else◌, none, not, some, true, ◌∷◌,
}
use edge_sentinel.Core.Errors.{is_exception, runtime_error}
use edge_sentinel.Core.Effects.{Action, Result, done, err, modify, ok, pure, raise, ◌>>=◌, ◌>>◌}
use edge_sentinel.Core.Events.{Value}

-- `sqlite3`: a file with what connections to it keep, `C`, and the rows and parameters of statements.
pub record Sqlite (C R : Type 0) : Type 0 where
  pub connect : String → Action C Unit
  pub close : Action C Unit
  pub execute : String → List Value → Action C (List R)
  pub executemany : String → List (List Value) → Action C Unit
  pub commit : Action C Unit
  pub rollback : Action C Unit

-- `_conn is not None`, and the file.
pub record Connection (C : Type 0) : Type 0 where
  pub is_connected : Bool
  pub file : C

abbrev on_file : {C A : Type 0} → Action C A → Action (Connection C) A
on_file m s = let (r, c) = m s.file in (r, record { is_connected = s.is_connected; file = c })

abbrev set_connected : {C : Type 0} → Bool → Connection C → Connection C
set_connected b s = record { is_connected = b; file = s.file }

-- `_require_conn`, and then the statement.
abbrev required : {C A : Type 0} → Action (Connection C) A → Action (Connection C) A
required m s = if s.is_connected then m s else (err runtime_error, s)

module _ {C R : Type 0} (sqlite : Sqlite C R) where
  unfoldable open_ : String → Action C Unit
  open_ path = do
    sqlite.connect path
    sqlite.execute "PRAGMA journal_mode=WAL" []
    sqlite.execute "PRAGMA synchronous=FULL" []
    sqlite.execute "PRAGMA foreign_keys=ON" []
    sqlite.execute "PRAGMA busy_timeout=5000" []
    done

  unfoldable connect : String → Action (Connection C) Unit
  unfolding open_
  connect path s =
      if s.is_connected
      then (ok tt, s)
      else (do on_file (open_ path); modify (set_connected true)) s

  -- The connection is given up before it is closed.
  unfoldable close : Action (Connection C) Unit
  close s =
      if not s.is_connected
      then (ok tt, s)
      else (do modify (set_connected false); on_file sqlite.close) s

  abbrev first : List R → Option R
  first [] = none
  first (row ∷ rest) = some row

  -- The methods of `Transaction`.
  unfoldable tx_execute : String → List Value → Action C Unit
  tx_execute sql params = do sqlite.execute sql params; done

  unfoldable tx_executemany : String → List (List Value) → Action C Unit
  tx_executemany sql rows = sqlite.executemany sql rows

  unfoldable tx_fetchone : String → List Value → Action C (Option R)
  tx_fetchone sql params = do rows ← sqlite.execute sql params; pure (first rows)

  unfoldable tx_fetchall : String → List Value → Action C (List R)
  tx_fetchall sql params = sqlite.execute sql params

  -- Those of `Database`.
  unfoldable execute : String → List Value → Action (Connection C) Unit
  unfolding tx_execute
  execute sql params = required (on_file (tx_execute sql params))

  unfoldable executemany : String → List (List Value) → Action (Connection C) Unit
  unfolding tx_executemany
  executemany sql rows = required (on_file (tx_executemany sql rows))

  unfoldable fetchone : String → List Value → Action (Connection C) (Option R)
  unfolding tx_fetchone
  fetchone sql params = required (on_file (tx_fetchone sql params))

  unfoldable fetchall : String → List Value → Action (Connection C) (List R)
  unfolding tx_fetchall
  fetchall sql params = required (on_file (tx_fetchall sql params))

  -- The end of the block of `transaction`: `except Exception` and `else`.
  unfoldable pub end_block : {A : Type 0} → Result A → Action C A
  end_block (ok a) = do sqlite.commit; pure a
  end_block (err e) = if is_exception e then (do sqlite.rollback; raise e) else raise e

  -- `transaction`, of the block that is run with the statements of `Transaction`.
  unfoldable pub transaction : {A : Type 0} → Action C A → Action (Connection C) A
  unfolding end_block
  transaction block = required (
      on_file
        (do sqlite.execute "BEGIN IMMEDIATE" []; λ c. (let (r, c') = block c in end_block r c')))
