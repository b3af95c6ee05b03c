-- ===== src/Repositories/Posts/Removal.antt =====
-- `RemovePost` of internal/repositories/postRepository.go: its update goes to `r.query`, the pool, and
-- only the event to the transaction.
use blog_go.Prelude.{
  ℕ, ◌≡◌, refl, ◌+◌, Bool, true, false, not, List, [], ◌∷◌, ◌++◌, map, arith, length, filter, any,
  ◌==◌, if◌then◌else◌,
}
use blog_go.Errs.{Error, not_found, by_uuid}
use blog_go.Action.{ok, err, ◌>>=◌}
use blog_go.Models.{Uuid, Time, Post}
use blog_go.Database.{
  to_micros, Db, Tables, Stamp, PostRow, served, refused, OutboxRow, post_deleted,
}
use blog_go.Database.Posts
use blog_go.Database.Posts.{has_equal_places}
use blog_go.Database.Outbox.{add_to_outbox}
use blog_go.Repositories.Transaction.{tx_exec, tx_pool_exec, exec_transaction}
use blog_go.Repositories.Posts.{remove_post}

-- The rows of a post marked as deleted at a time.
abbrev pub marked : Uuid → Time → Tables → Tables
marked id at t = record t {
  posts =
      map
        (λ (p : PostRow).
          if p.id == id
          then record p { deleted_at = record { time = to_micros at; valid = true } }
          else p)
        t.posts;
}

abbrev pub is_stored : Uuid → Tables → Bool
is_stored id t = any (λ p. p.id == id) t.posts

count-is_stored :
    (id : Uuid) (rows : List PostRow)
    → (length (filter (λ p. p.id == id) rows) == 0) ≡ not (any (λ p. p.id == id) rows)
count-is_stored id [] = refl
count-is_stored id (p ∷ rows) = ground (arith, count-is_stored id rows)

marked_rows_missing :
    (id : Uuid) (at : Time) (rows : List PostRow)
    → any (λ p. p.id == id) rows ≡ false
    → map
        (λ (p : PostRow).
          if p.id == id
          then record p { deleted_at = record { time = to_micros at; valid = true } }
          else p)
        rows
      ≡ rows
marked_rows_missing id at [] h = refl
marked_rows_missing id at (p ∷ rows) h = ground (arith, marked_rows_missing id at rows)

-- The event of a deleted post.
abbrev pub deleted_event : Stamp → Post → OutboxRow
deleted_event stamp post = record {
  id = stamp.uuid;
  message_type = post_deleted;
  payload = post;
  created_at = stamp.now;
  processed_at = record { time = 0; valid = false };
}

-- `RemovePost` is not atomic: for every post that is stored, if the transaction opens, the update runs
-- and the database then refuses the event, the caller gets that error, but the post is committed as
-- deleted and the outbox has no event for it.
pub remove_post-not_atomic :
    (post : Post) (at : Time) (db : Db) (e : Error)
    → is_stored post.id db.tables ≡ true
    → db.faults db.tick ≡ served
    → db.faults (db.tick + 1) ≡ served
    → db.faults (db.tick + 1 + 1) ≡ refused e
    → ((remove_post post at db).0 ≡ err e)
      × ((remove_post post at db).1.tables ≡ marked post.id at db.tables)
unfolding remove_post exec_transaction tx_pool_exec tx_exec Posts.delete_post ◌>>=◌
remove_post-not_atomic post at db e stored begun deleted failed =
    ground (arith, count-is_stored post.id db.tables.posts)

-- With a database that answers, a stored post is marked and exactly one event is added; a post that is
-- not stored gives the `NotFoundError` and changes no table. For the first, the drawn event identifier
-- is new and no two media of one post share a place.
pub remove_post-served :
    (post : Post) (at : Time) (db : Db)
    → ((n : ℕ) → db.faults n ≡ served)
    → any (λ r. r.id == (db.stamps (db.tick + 1 + 1)).uuid) db.tables.outbox ≡ false
    → has_equal_places db.tables.post_media ≡ false
    → let event = deleted_event (db.stamps (db.tick + 1 + 1)) post in
      let done = marked post.id at db.tables in
      ((remove_post post at db).0 ≡ (
        if is_stored post.id db.tables
        then ok tt
        else err (not_found "RemovePostById" (by_uuid post.id))))
      × ((remove_post post at db).1.tables ≡ (
          if is_stored post.id db.tables
          then record done { outbox = db.tables.outbox ++ event ∷ [] }
          else db.tables))
unfolding remove_post exec_transaction tx_pool_exec tx_exec Posts.delete_post add_to_outbox ◌>>=◌
remove_post-served post at db answers new distinct = ground (
  arith,
  answers db.tick,
  answers (db.tick + 1),
  answers (db.tick + 1 + 1),
  answers (db.tick + 1 + 1 + 1),
  count-is_stored post.id db.tables.posts,
  marked_rows_missing post.id at db.tables.posts,
)
