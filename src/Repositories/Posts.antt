-- ===== src/Repositories/Posts.antt =====
-- internal/repositories/postRepository.go
pub mod Publishing
pub mod Removal
pub mod Reading
pub mod Tokens
use blog_go.Prelude.{
  ℕ, ◌+◌, ◌-◌, ◌%◌, ◌^◌, Bool, true, false, Option, none, some, List, [], ◌∷◌, ◌++◌, map, ltb, ◌==◌,
  if◌then◌else◌,
}
use blog_go.Errs.{
  Error, sentinel, not_found, wrap, by_uuid, err_no_rows, err_already_exists, is,
  is_unique_violation,
}
use blog_go.Action.{Action, pure, fail, branch, ◌>>=◌, ◌>>◌, map_err}
use blog_go.Models.{Uuid, Time, AttachedMedia, Post, PostPaginationCursor}
use blog_go.Database.{
  Db, NullUuid, Timestamptz, PostRow, PostMedium, post_added, post_deleted, pool_exec,
}
use blog_go.Database.Posts
use blog_go.Database.Outbox.{add_to_outbox}
use blog_go.Repositories.{PostRepository}
use blog_go.Repositories.Transaction.{Tx, tx_exec, tx_pool_exec, exec_transaction}

abbrev to_null_uuid : Option Uuid → NullUuid
to_null_uuid none = record { uuid = 0; valid = false }
to_null_uuid (some id) = record { uuid = id; valid = true }

abbrev to_timestamptz : Option Time → Timestamptz
to_timestamptz none = record { time = 0; valid = false }
to_timestamptz (some t) = record { time = t; valid = true }

unfoldable pub to_post_params : Post → PostRow
to_post_params post = record {
  id = post.id;
  author_id = post.author_id;
  reply_to = to_null_uuid post.reply_to;
  content = post.content;
  created_at = to_timestamptz (some post.created_at);
  deleted_at = to_timestamptz post.deleted_at;
}

-- `int32(x)` keeps the low 32 bits.
abbrev pub to_int32 : ℕ → ℕ
to_int32 x = x % 2 ^ 32

-- `int(x)` of an int32 extends its sign.
abbrev pub of_int32 : ℕ → ℕ
of_int32 x = if ltb x (2 ^ 31) then x else x + (2 ^ 64 - 2 ^ 32)

unfoldable pub to_add_post_attachments_params : List AttachedMedia → List PostMedium
to_add_post_attachments_params = map (λ (attachment : AttachedMedia). record {
  id = attachment.id;
  post_id = attachment.post_id;
  media_type = attachment.media_type;
  mime_type = attachment.mime_type;
  url = attachment.url;
  display_order = to_int32 attachment.display_order;
})

-- The closure of `RemovePost`: the update goes to the pool, the event to the transaction.
remove_post_in : Post → Time → Action Tx (Unit {0})
remove_post_in post remove_at = do
  cnt ← tx_pool_exec (Posts.delete_post post.id (to_timestamptz (some remove_at)))
  if cnt == 0
      then fail (not_found "RemovePostById" (by_uuid post.id))
      else tx_exec (add_to_outbox post_deleted post)

unfoldable pub remove_post : Post → Time → Action Db (Unit {0})
unfolding remove_post_in
remove_post post remove_at = exec_transaction (remove_post_in post remove_at)

add_media_in : List PostMedium → Action Tx (Unit {0})
add_media_in [] = pure tt
add_media_in (m ∷ ms) = let rest = add_media_in ms in tx_exec (Posts.add_post_media m) >> rest

-- The closure of `AddPost`.
add_post_in : Post → Action Tx (Unit {0})
unfolding add_media_in to_post_params to_add_post_attachments_params
add_post_in post = do
  tx_exec (Posts.add_post (to_post_params post))
  add_media_in (to_add_post_attachments_params post.attached)
  tx_exec (add_to_outbox post_added post)

add_post_error : Error → Error
add_post_error e =
    if is_unique_violation e
    then wrap "post with such id already exists" (sentinel err_already_exists)
    else wrap "failed to add post" e

unfoldable pub add_post : Post → Action Db (Unit {0})
unfolding add_post_in add_post_error
add_post post = map_err add_post_error (exec_transaction (add_post_in post))

unfoldable pub to_attachment : PostMedium → AttachedMedia
to_attachment m = record {
  id = m.id;
  post_id = m.post_id;
  media_type = m.media_type;
  mime_type = m.mime_type;
  url = m.url;
  display_order = of_int32 m.display_order;
}

unfoldable pub to_attachments : List PostMedium → List AttachedMedia
unfolding to_attachment
to_attachments = map to_attachment

abbrev of_null_uuid : NullUuid → Option Uuid
of_null_uuid u = if u.valid then some u.uuid else none

abbrev of_timestamptz : Timestamptz → Option Time
of_timestamptz t = if t.valid then some t.time else none

unfoldable pub to_post : PostRow → List AttachedMedia → Post
to_post row attachments = record {
  id = row.id;
  author_id = row.author_id;
  reply_to = of_null_uuid row.reply_to;
  content = row.content;
  created_at = row.created_at.time;
  deleted_at = of_timestamptz row.deleted_at;
  attached = attachments;
}

find_post_error : Uuid → Error → Error
find_post_error id e =
    if is e err_no_rows
    then not_found "GetPostById" (by_uuid id)
    else wrap "failed to find post by id" e

unfoldable pub get_post_by_id : Uuid → Action Db Post
unfolding find_post_error to_attachments to_post
get_post_by_id id = do
  row ← map_err (find_post_error id) (pool_exec (Posts.find_post_by_id id))
  media ←
      map_err (wrap "failed to find linked post media")
        (pool_exec (Posts.find_linked_post_media id))
  pure (to_post row (to_attachments media))

abbrev pub gather_post_ids : List PostRow → List Uuid
gather_post_ids = map (λ p. p.id)

-- A Go map from a post's id to its attachments; a missing key reads as the empty slice.
map_media_from : (Uuid → List AttachedMedia) → List PostMedium → Uuid → List AttachedMedia
map_media_from m [] = m
map_media_from m (row ∷ rows) =
    map_media_from (λ id. if id == row.post_id then m id ++ to_attachment row ∷ [] else m id) rows

unfoldable pub map_posts_media_by_post_id : List PostMedium → Uuid → List AttachedMedia
unfolding map_media_from to_attachment
map_posts_media_by_post_id = map_media_from (λ id. [])

-- `posts[len(posts)-1]` of a slice that is not empty.
abbrev pub last_post : Post → List Post → Post
last_post p [] = p
last_post p (q ∷ qs) = last_post q qs

abbrev pub make_new_cursor : Post → List Post → PostPaginationCursor
make_new_cursor p ps =
    let last = last_post p ps in record { last_id = last.id; last_time = last.created_at }

-- The posts of some rows with their attachments: the common end of the two queries below.
with_attachments : List PostRow → Action Db (List Post)
unfolding map_posts_media_by_post_id to_post
with_attachments rows = do
  media ←
      map_err (wrap "failed to find attached posts' medias")
        (pool_exec (Posts.find_posts_medias (gather_post_ids rows)))
  pure (map (λ row. to_post row (map_posts_media_by_post_id media row.id)) rows)

abbrev page_of : List Post → List Post × Option PostPaginationCursor
page_of [] = ([], none)
page_of (p ∷ ps) = (p ∷ ps, some (make_new_cursor p ps))

find_page : Uuid → Option PostPaginationCursor → ℕ → Action Db (List PostRow)
find_page author_id none limit = pool_exec (Posts.find_user_posts author_id (to_int32 limit))
find_page author_id (some cursor) limit = pool_exec (
    Posts.find_user_posts_with_cursor author_id (to_int32 limit)
      (to_timestamptz (some cursor.last_time)) cursor.last_id)

fill_page : List PostRow → Action Db (List Post × Option PostPaginationCursor)
unfolding with_attachments
fill_page [] = pure ([], none)
fill_page (row ∷ rows) = do posts ← with_attachments (row ∷ rows); pure (page_of posts)

unfoldable pub get_posts_by_author_id :
    Uuid → Option PostPaginationCursor → ℕ → Action Db (List Post × Option PostPaginationCursor)
unfolding find_page fill_page
get_posts_by_author_id author_id cursor limit = do
  rows ← map_err (wrap "failed to find posts") (find_page author_id cursor limit)
  fill_page rows

fill_posts : List PostRow → Action Db (List Post)
unfolding with_attachments
fill_posts [] = pure []
fill_posts (row ∷ rows) = with_attachments (row ∷ rows)

unfoldable pub get_posts_with_ids : List Uuid → Action Db (List Post)
unfolding fill_posts
get_posts_with_ids ids = do
  rows ← map_err (wrap "failed to find posts") (pool_exec (Posts.find_posts_by_ids ids))
  fill_posts rows

unfoldable pub post_repository : PostRepository Db
post_repository = record {
  add_post = add_post;
  remove_post = remove_post;
  get_post_by_id = get_post_by_id;
  get_posts_with_ids = get_posts_with_ids;
  get_posts_by_author_id = get_posts_by_author_id;
}
