-- ===== src/Repositories/Transaction/Invariants.antt =====
-- Invariants of the tables under pool calls and under transactions of
-- internal/repositories/transactionHelper.go: a statement that keeps one keeps it wherever it runs.
use blog_go.Prelude.{inl, inr, sym, subst, arith}
use blog_go.Action.{Result, ok, err, Action}
use blog_go.Action.Keeps.{Keeps}
use blog_go.Database.{Db, Tables, Stamp, Fault, Query, served, refused, lost, answer, pool_exec}
use blog_go.Database.Statements.{pool_exec-tables}
use blog_go.Repositories.Transaction.{
  Tx, tx_exec, tx_pool_exec, begin, commit_tables, commit, close, run_in, exec_transaction,
}

module _ (P : Tables → Type 0) where
  pub record Preserves {A : Type 0} (q : Query A) : Type 0 where
    pub at : (stamp : Stamp) (t : Tables) → P t → P (q stamp t).1

  -- On the committed tables, and in a transaction on what it sees too.
  abbrev pub On : Db → Type 0
  On db = P db.tables

  abbrev pub In : Tx → Type 0
  In tx = P tx.pool.tables × P tx.view

  module _ {A : Type 0} (q : Query A) (keeps : Preserves q) where
    pub pool_exec-On : Keeps On (pool_exec q)
    pool_exec-On = record {
      at = λ db h. elim (pool_exec-tables q db) [
        | inl kept ↦ subst P (sym kept) h
        | inr ran ↦ subst P (sym ran) (keeps.at (db.stamps db.tick) db.tables h)
      ];
    }

    answered : (f : Fault) (stamp : Stamp) (t : Tables) → P t → P (answer f (q stamp t) t).1
    unfolding answer
    answered served stamp t h = keeps.at stamp t h
    answered (refused e) stamp t h = h
    answered (lost e) stamp t h = keeps.at stamp t h

    pub tx_exec-In : Keeps In (tx_exec q)
    unfolding tx_exec
    tx_exec-In = record {
      at = λ tx (committed, seen). (
        committed,
        answered (tx.pool.faults tx.pool.tick) (tx.pool.stamps tx.pool.tick) tx.view seen,
      );
    }

    pub tx_pool_exec-In : Keeps In (tx_pool_exec q)
    unfolding tx_pool_exec
    tx_pool_exec-In = record {
      at = λ tx (committed, seen). (
        pool_exec-On.at tx.pool committed,
        answered (tx.pool.faults tx.pool.tick) (tx.pool.stamps tx.pool.tick) tx.view seen,
      );
    }

  commit-On : (db : Db) (view : Tables) → P db.tables → P view → On (commit db view).1
  unfolding commit commit_tables answer
  commit-On db view old new = ground (arith, old, new)

  closed : (r : Result (Unit {0})) (tx : Tx) → In tx → On (close (r, tx)).1
  unfolding close
  closed (err e) tx h = h.0
  closed (ok _) tx h = commit-On tx.pool tx.view h.0 h.1

  run_in-On :
      (fn : Action Tx (Unit {0})) (f : Fault) (db : Db)
      → Keeps In fn
      → On db
      → On (run_in (begin f db) fn).1
  unfolding run_in begin
  run_in-On fn (refused e) db keeps h = h
  run_in-On fn (lost e) db keeps h = h
  run_in-On fn served db keeps h =
      let start : Tx = record { pool = db; view = db.tables } in
      closed (fn start).0 (fn start).1 (keeps.at start (h, h))

  pub exec_transaction-On :
      (fn : Action Tx (Unit {0})) → Keeps In fn → Keeps On (exec_transaction fn)
  unfolding exec_transaction
  exec_transaction-On fn keeps = record { at = λ db h. run_in-On fn (db.faults db.tick) _ keeps h }
