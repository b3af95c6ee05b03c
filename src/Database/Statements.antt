-- ===== src/Database/Statements.antt =====
-- What a call on the pool of internal/db says of the tables, whatever the network does.
use blog_go.Prelude.{◌≡◌, ◌⊎◌, arith}
use blog_go.Action.{Result, ok}
use blog_go.Database.{Db, Tables, Fault, Query, served, refused, lost, answer, pool_exec}

module _ {A : Type 0} where
  answer-eq-ok :
      (f : Fault) (r : Result A) (after before after' : Tables) (a : A)
      → answer f (r, after) before ≡ (ok a, after')
      → ◌≡◌ {A = Result A × Tables} (r, after) (ok a, after')
  unfolding answer
  answer-eq-ok served r after before after' a h = h
  answer-eq-ok (refused e) r after before after' a h = absurd (ground arith)
  answer-eq-ok (lost e) r after before after' a h = absurd (ground arith)

  -- A call that returned a value has run its statement.
  pub pool_exec-eq-ok :
      (q : Query A) (db db' : Db) (a : A)
      → pool_exec q db ≡ (ok a, db')
      → q (db.stamps db.tick) db.tables ≡ (ok a, db'.tables)
  unfolding pool_exec
  pool_exec-eq-ok q db db' a h =
      let r = q (db.stamps db.tick) db.tables in
      answer-eq-ok (db.faults db.tick) r.0 r.1 db.tables db'.tables a (ground arith)

  -- A call that failed has left the tables, or has run its statement and lost the answer.
  pub pool_exec-tables :
      (q : Query A) (db : Db)
      → ((pool_exec q db).1.tables ≡ db.tables)
        ⊎ ((pool_exec q db).1.tables ≡ (q (db.stamps db.tick) db.tables).1)
  unfolding pool_exec answer
  pool_exec-tables q db = ground arith
