-- ===== src/Persistence/Connection/Transactions.antt =====
-- What a transaction leaves.
use edge_sentinel.Prelude.{Bool, List, [], false, if◌then◌else◌, true, ◌≡◌}
use edge_sentinel.Core.Errors.{database_error, is_exception}
use edge_sentinel.Core.Effects.{Action, Result, err, ok}
use edge_sentinel.Persistence.Connection.{Connection, Sqlite, transaction}

module _ {C R F : Type 0} (sqlite : Sqlite C R) where
  -- What SQLite documents of transactions: `content` is what the connection reads, `before` what a
  -- rollback goes back to.
  pub record IsSqlite (in_transaction : C → Bool) (content before : C → F) : Type 0 where
    pub begins :
        (c : C) (rows : List R)
        → (sqlite.execute "BEGIN IMMEDIATE" [] c).0 ≡ ok rows
        → (in_transaction (sqlite.execute "BEGIN IMMEDIATE" [] c).1 ≡ true)
          × (before (sqlite.execute "BEGIN IMMEDIATE" [] c).1 ≡ content c)
    pub nests_not :
        (c : C)
        → in_transaction c ≡ true
        → (sqlite.execute "BEGIN IMMEDIATE" [] c).0 ≡ err database_error
    pub commits :
        (c : C)
        → (sqlite.commit c).0 ≡ ok tt
        → (in_transaction (sqlite.commit c).1 ≡ false) × (content (sqlite.commit c).1 ≡ content c)
    pub rolls_back :
        (c : C)
        → (sqlite.rollback c).0 ≡ ok tt
        → (in_transaction (sqlite.rollback c).1 ≡ false)
          × (content (sqlite.rollback c).1 ≡ before c)

  module _ {A : Type 0} (in_transaction : C → Bool) (content before : C → F)
      (documented : IsSqlite in_transaction content before) (block : Action C A) (s : Connection C)
      {B : Type 0} (later : Action C B) where
    -- The file at the beginning and at the end of the block.
    abbrev begun : C
    begun = (sqlite.execute "BEGIN IMMEDIATE" [] s.file).1

    abbrev ended : C
    ended = (block begun).1

    -- What is left by a block of that outcome.
    abbrev Left : Result A → Result A × Connection C → Type 0
    Left (ok a) x = (in_transaction x.1.file ≡ false) × (content x.1.file ≡ content ended)
    Left (err e) x =
        if is_exception e
        then (in_transaction x.1.file ≡ false) × (content x.1.file ≡ content s.file)
        else (in_transaction x.1.file ≡ true)
          × ((transaction sqlite later x.1).0 ≡ err database_error)

    run : Result A × C → Result A × Connection C
    run x = (x.0, record { is_connected = s.is_connected; file = x.1 })
