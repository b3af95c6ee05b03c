-- ===== src/Tests/Posts.antt =====
-- Publishing and removing posts through internal/repositories/postRepository.go on a small database.
use mathlib.Core.List.{Perm}
use blog_go.Prelude.{
  List, true, arith, ◌≡◌, ◌≢◌, refl, ◌+◌, ◌⊎◌, false, [], ◌∷◌, ◌++◌, if◌then◌else◌,
}
use blog_go.Errs.{sentinel, wrap, other, not_found, by_uuid, err_already_exists}
use blog_go.Action.{Action, ok, err}
use blog_go.Models.{AttachedMedia}
use blog_go.Database.{PostRow, to_micros, Db, Tables, Stamp, post_added}
use blog_go.Database.Posts
use blog_go.Database.Posts.{has_equal_places}
use blog_go.Database.Outbox.{add_to_outbox}
use blog_go.Repositories.Transaction.{Tx, tx_exec, tx_pool_exec, exec_transaction}
use blog_go.Repositories.Transaction.Atomicity.{Outcome, tx_exec-Untouched, exec_transaction_atomic}
use blog_go.Repositories.Posts.{
  post_repository, add_post, remove_post, get_post_by_id, to_post, to_post_params,
  to_add_post_attachments_params, to_attachments,
}
use blog_go.Repositories.Posts.Publishing.{published, add_post-atomic}
use blog_go.Repositories.Posts.Reading.{as_stored, get_post_by_id-add_post}
use blog_go.Repositories.Posts.Removal.{
  marked, deleted_event, is_stored, remove_post-not_atomic, remove_post-served,
}
use blog_go.Services.Posts.{remove_post_by_id}
use blog_go.Services.Posts.Ownership.{remove_post_by_id-foreign}
use blog_go.Tests.Fixtures.{stamp_of, actions, runtime, start_tables, start_db, refusing_at, post}

posts : Unit {0}
unfolding actions add_post remove_post get_post_by_id to_post to_post_params
    to_add_post_attachments_params to_attachments exec_transaction tx_exec tx_pool_exec
    Posts.add_post Posts.stored_row to_micros Posts.add_post_media Posts.find_post_by_id
    Posts.find_linked_post_media has_equal_places add_to_outbox
posts = tt

abbrev stored : Db
stored = (add_post post start_db).1

abbrev stored_tables : Tables
stored_tables = stored.tables

add_post_tests :
    ((add_post post start_db).0 ≡ ok tt)
    × (stored_tables ≡ published (stamp_of 903 3) post start_tables)
    × ((get_post_by_id 30 stored).0 ≡ ok post)
    × ((add_post post stored).0
        ≡ err (wrap "post with such id already exists" (sentinel err_already_exists)))
    × ((add_post post (refusing_at start_tables 3)).1.tables ≡ start_tables)
unfolding posts
add_post_tests = (refl, refl, refl, refl, refl)

add_post-atomic_example :
    (((add_post post start_db).1.tables ≡ start_db.tables) × ((add_post post start_db).0 ≢ ok tt))
    ⊎ ((stamp : Stamp) × ((add_post post start_db).1.tables ≡ published stamp post start_db.tables)
        × (has_equal_places (add_post post start_db).1.tables.post_media ≡ false))
add_post-atomic_example = add_post-atomic post start_db

abbrev announce : Action Tx (Unit {0})
announce = tx_exec (add_to_outbox post_added post)

exec_transaction_atomic_example : Outcome announce start_db (exec_transaction announce start_db)
exec_transaction_atomic_example =
    exec_transaction_atomic announce start_db
      (tx_exec-Untouched start_db.tables (add_to_outbox post_added post))

remove_post-not_atomic_example :
    ((remove_post post 60 (refusing_at stored_tables 2)).0 ≡ err (other "connection reset"))
    × ((remove_post post 60 (refusing_at stored_tables 2)).1.tables ≡ marked 30 60 stored_tables)
unfolding posts
remove_post-not_atomic_example =
    remove_post-not_atomic post 60 (refusing_at stored_tables 2) (other "connection reset") refl
      refl refl refl

remove_post-served_example :
    let db = stored in
    let event = deleted_event (db.stamps (db.tick + 1 + 1)) post in
    let done = marked 30 60 db.tables in
    ((remove_post post 60 db).0
      ≡ (if is_stored 30 db.tables then ok tt else err (not_found "RemovePostById" (by_uuid 30))))
    × ((remove_post post 60 db).1.tables ≡ (
        if is_stored 30 db.tables
        then record done { outbox = db.tables.outbox ++ event ∷ [] }
        else db.tables))
unfolding posts
remove_post-served_example = remove_post-served post 60 stored (λ n. refl) refl refl

get_post_by_id-add_post_example :
    (attached : List AttachedMedia) × Perm attached (as_stored post).attached
    × ((get_post_by_id 30 stored).0 ≡ ok (record (as_stored post) { attached = attached }))
unfolding posts
get_post_by_id-add_post_example =
    get_post_by_id-add_post post start_db stored refl refl (refl, tt) refl (λ n. refl)

abbrev post_row : PostRow
post_row = record {
  id = 30;
  author_id = 1;
  reply_to = record { uuid = 0; valid = false };
  content = "hello";
  created_at = record { time = 50_000; valid = true };
  deleted_at = record { time = 0; valid = false };
}

remove_post_by_id-foreign_example :
    ((remove_post_by_id runtime post_repository 30 2 stored).1.tables ≡ stored.tables)
    × ((remove_post_by_id runtime post_repository 30 2 stored).0 ≢ ok post)
unfolding posts
remove_post_by_id-foreign_example =
    remove_post_by_id-foreign runtime 30 2 post_row stored post refl (λ e. ground arith)
