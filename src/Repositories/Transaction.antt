-- ===== src/Repositories/Transaction.antt =====
-- internal/repositories/transactionHelper.go. While a transaction is open, `pool` is the connection
-- with the committed tables and `view` is what the transaction sees: the committed tables with its
-- own writes. A statement that the closure sends to the pool is committed at once and is seen too.
pub mod Atomicity
pub mod Invariants
use blog_go.Prelude.{◌+◌, Bool, true, false}
use blog_go.Errs.{Error, pg_error}
use blog_go.Action.{Result, ok, err, Action}
use blog_go.Database.{Tables, Fault, served, refused, lost, Db, Query, answer, pool_exec}
use blog_go.Database.Posts.{has_equal_places}

pub record Tx : Type 0 where
  pub pool : Db
  pub view : Tables

module _ {A : Type 0} where
  -- A statement of `database.New(tx)`.
  unfoldable pub tx_exec : Query A → Action Tx A
  unfolding answer
  tx_exec q tx =
      let db = tx.pool in
      let (r, after) = answer (db.faults db.tick) (q (db.stamps db.tick) tx.view) tx.view in
      (r, record { pool = record db { tick = db.tick + 1 }; view = after })

  -- A statement of the repository's own `query`, inside the closure.
  unfoldable pub tx_pool_exec : Query A → Action Tx A
  unfolding answer pool_exec
  tx_pool_exec q tx =
      let db = tx.pool in
      let (r, db') = pool_exec q db in
      let (_, seen) = answer (db.faults db.tick) (q (db.stamps db.tick) tx.view) tx.view in
      (r, record { pool = db'; view = seen })

-- The server's part of COMMIT: the deferred constraint is looked at, the writes become visible.
commit_tables : Tables → Tables → Result (Unit {0}) × Tables
commit_tables view committed = elim (has_equal_places view.post_media) [
  | true ↦ (err (pg_error "23505"), committed)
  | false ↦ (ok tt, view)
]

-- `pool.Begin` and `tx.Commit` are calls too. The deferred `tx.Rollback` drops the view.
begin : Fault → Db → Result Tx × Db
begin served db = (ok (record { pool = db; view = db.tables }), db)
begin (refused e) db = (err e, db)
begin (lost e) db = (err e, db)

commit : Db → Tables → Result (Unit {0}) × Db
unfolding commit_tables answer
commit db view =
    let (r, after) = answer (db.faults db.tick) (commit_tables view db.tables) db.tables in
    (r, record db { tables = after; tick = db.tick + 1 })

close : Result (Unit {0}) × Tx → Result (Unit {0}) × Db
unfolding commit
close (err e, tx) = (err e, tx.pool)
close (ok _, tx) = commit tx.pool tx.view

run_in : Result Tx × Db → Action Tx (Unit {0}) → Result (Unit {0}) × Db
unfolding close
run_in (err e, db) fn = (err e, db)
run_in (ok tx, db) fn = close (fn tx)

unfoldable pub exec_transaction : Action Tx (Unit {0}) → Action Db (Unit {0})
unfolding run_in begin
exec_transaction fn db = run_in (begin (db.faults db.tick) (record db { tick = db.tick + 1 })) fn
