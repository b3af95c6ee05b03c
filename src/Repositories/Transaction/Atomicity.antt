-- ===== src/Repositories/Transaction/Atomicity.antt =====
-- What a transaction of internal/repositories/transactionHelper.go leaves behind.
use blog_go.Prelude.{◌∙◌, ◌≡◌, ◌≢◌, refl, ◌+◌, false, ◌⊎◌, inl, inr, arith}
use blog_go.Action.{Result, ok, err, Action}
use blog_go.Action.Keeps.{Keeps}
use blog_go.Database.{Db, Tables, Fault, Query, served, refused, lost, answer}
use blog_go.Database.Posts.{has_equal_places}
use blog_go.Repositories.Transaction.{Tx, tx_exec, begin, commit, close, run_in, exec_transaction}

-- The committed tables have not changed.
abbrev pub Untouched : Tables → Tx → Type 0
Untouched t tx = tx.pool.tables ≡ t

module _ {A : Type 0} where
  -- A statement of the transaction does not touch the committed tables.
  pub tx_exec-Untouched : (t : Tables) (q : Query A) → Keeps (Untouched t) (tx_exec q)
  unfolding tx_exec
  tx_exec-Untouched t q = record { at = λ tx h. h }

  tx_answer-eq-ok :
      (f : Fault) (r : Result A) (after before after' : Tables) (a : A)
      → answer f (r, after) before ≡ (ok a, after')
      → ◌≡◌ {A = Result A × Tables} (r, after) (ok a, after')
  unfolding answer
  tx_answer-eq-ok served r after before after' a h = h
  tx_answer-eq-ok (refused e) r after before after' a h = absurd (ground arith)
  tx_answer-eq-ok (lost e) r after before after' a h = absurd (ground arith)

  -- One that returned a value has run on the view.
  pub tx_exec-eq-ok :
      (q : Query A) (tx tx' : Tx) (a : A)
      → tx_exec q tx ≡ (ok a, tx')
      → q (tx.pool.stamps tx.pool.tick) tx.view ≡ (ok a, tx'.view)
  unfolding tx_exec
  tx_exec-eq-ok q tx tx' a h =
      let r = q (tx.pool.stamps tx.pool.tick) tx.view in
      tx_answer-eq-ok (tx.pool.faults tx.pool.tick) r.0 r.1 tx.view tx'.view a (ground arith)

commit-cases :
    (db : Db) (view : Tables)
    → (((commit db view).1.tables ≡ db.tables) × ((commit db view).0 ≢ ok tt))
      ⊎ (((commit db view).1.tables ≡ view) × (has_equal_places view.post_media ≡ false))
unfolding commit
commit-cases db view = ground arith

-- All or nothing: the committed tables are the old ones and the call failed, or they are the view of
-- a closure that ran to its end.
abbrev pub Outcome : Action Tx (Unit {0}) → Db → Result (Unit {0}) × Db → Type 0
Outcome fn db out =
    ((out.1.tables ≡ db.tables) × (out.0 ≢ ok tt))
    ⊎ ((start : Tx) × (final : Tx) × (start.view ≡ db.tables)
        × (fn start ≡ (ok tt, final))
        × (out.1.tables ≡ final.view)
        × (has_equal_places final.view.post_media ≡ false))

close-cases :
    (fn : Action Tx (Unit {0})) (start : Tx) (db : Db) (r : Result (Unit {0})) (final : Tx)
    → start.view ≡ db.tables
    → ◌≡◌ {A = Result (Unit {0}) × Tx} (fn start) (r, final)
    → final.pool.tables ≡ db.tables
    → Outcome fn db (close (r, final))
unfolding close
close-cases fn start db (err e) final opened ran same = inl (same, λ p. absurd (ground arith))
close-cases fn start db (ok tt) final opened ran same = elim (commit-cases final.pool final.view) [
  | inl (kept, failed) ↦ inl (kept ∙ same, failed)
  | inr (written, distinct) ↦ inr (start, final, opened, ran, written, distinct)
]

-- A closure that does not write to the pool is atomic: the committed tables are the old ones and the
-- call returned an error, or they are those that the whole closure wrote.
pub exec_transaction_atomic :
    (fn : Action Tx (Unit {0})) (db : Db)
    → Keeps (Untouched db.tables) fn
    → Outcome fn db (exec_transaction fn db)
unfolding exec_transaction
exec_transaction_atomic fn db keeps = opened (db.faults db.tick)
  where
    db' : Db
    db' = record db { tick = db.tick + 1 }

    opened : (f : Fault) → Outcome fn db (run_in (begin f db') fn)
    opened served =
        let start : Tx = record { pool = db'; view = db.tables } in
        close-cases fn start db (fn start).0 (fn start).1 refl refl (keeps.at start refl)
    opened (refused e) = inl (refl, λ p. absurd (ground arith))
    opened (lost e) = inl (refl, λ p. absurd (ground arith))
