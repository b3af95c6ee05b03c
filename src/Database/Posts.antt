-- ===== src/Database/Posts.antt =====
-- internal/database/post.sql.go with the constraints of migrations 00002 and 00006.
use text.Mathlib.Text.{◌==◌ as str_eq}
use blog_go.Prelude.{
  ℕ, ◌^◌, Bool, false, ◌&&◌, ◌||◌, not, String, List, [], ◌∷◌, ◌++◌, map, ltb, leb, ◌==◌,
  if◌then◌else◌, filter, any, find?, length, take, elem,
}
use blog_go.Errs.{pg_error}
use blog_go.Action.{ok, err}
use blog_go.Models.{Uuid, Time}
use blog_go.Database.{Timestamptz, micros, PostRow, PostMedium, Tables, Query}
use blog_go.Database.Users.{one, is_over, cut_to}

abbrev has_post : Uuid → Tables → Bool
has_post id t = any (λ p. p.id == id) t.posts

unfoldable pub stored_row : PostRow → PostRow
stored_row p = record p { created_at = micros p.created_at; deleted_at = micros p.deleted_at }

unfoldable pub add_post : PostRow → Query (Unit {0})
add_post p stamp t =
    if not p.created_at.valid
    then (err (pg_error "23502"), t)
    else if has_post p.id t
    then (err (pg_error "23505"), t)
    else if p.reply_to.valid && not (has_post p.reply_to.uuid t || p.reply_to.uuid == p.id)
    then (err (pg_error "23503"), t)
    else (ok tt, record t { posts = t.posts ++ stored_row p ∷ [] })

-- The values of `media_type`.
abbrev is_media_type : String → Bool
is_media_type s = str_eq s "image" || str_eq s "video" || str_eq s "audio" || str_eq s "document"

-- `mime_type varchar(30)`
unfoldable pub stored_medium : PostMedium → PostMedium
stored_medium m = record m { mime_type = cut_to 30 m.mime_type }

unfoldable pub add_post_media : PostMedium → Query (Unit {0})
unfolding stored_medium is_over
add_post_media m stamp t =
    if not (is_media_type m.media_type)
    then (err (pg_error "22P02"), t)
    else if is_over 30 m.mime_type
    then (err (pg_error "22001"), t)
    else if any (λ n. n.id == m.id) t.post_media
    then (err (pg_error "23505"), t)
    else if has_post m.post_id t
    then (ok tt, record t { post_media = t.post_media ++ stored_medium m ∷ [] })
    else (err (pg_error "23503"), t)

-- `UNIQUE (post_id, display_order) DEFERRABLE INITIALLY DEFERRED`: looked at when a transaction
-- commits.
unfoldable pub has_equal_places : List PostMedium → Bool
has_equal_places [] = false
has_equal_places (m ∷ ms) =
    any (λ n. n.post_id == m.post_id && n.display_order == m.display_order) ms
    || has_equal_places ms

-- `SET deleted_at = $2 WHERE id = $1`, with the number of rows.
unfoldable pub delete_post : Uuid → Timestamptz → Query ℕ
delete_post id deleted_at stamp t = (
  ok (length (filter (λ p. p.id == id) t.posts)),
  record t {
    posts =
        map (λ (p : PostRow). if p.id == id then record p { deleted_at = micros deleted_at } else p)
          t.posts;
  },
)

unfoldable pub find_linked_post_media : Uuid → Query (List PostMedium)
find_linked_post_media post_id stamp t =
    (ok (stamp.media_order (filter (λ m. m.post_id == post_id) t.post_media)), t)

unfoldable pub find_post_by_id : Uuid → Query PostRow
find_post_by_id id stamp t = (one (find? (λ p. p.id == id) t.posts), t)

unfoldable pub find_posts_by_ids : List Uuid → Query (List PostRow)
find_posts_by_ids ids stamp t =
    (ok (stamp.row_order (filter (λ p. elem p.id ids && not p.deleted_at.valid) t.posts)), t)

unfoldable pub find_posts_medias : List Uuid → Query (List PostMedium)
find_posts_medias ids stamp t =
    (ok (stamp.media_order (filter (λ m. elem m.post_id ids) t.post_media)), t)

-- `(created_at, id) < (time, last_id)` on rows.
abbrev pub is_before : PostRow → Time → Uuid → Bool
is_before p time id = ltb p.created_at.time time || (p.created_at.time == time && ltb p.id id)

-- `ORDER BY created_at DESC, id DESC`
insert_desc : PostRow → List PostRow → List PostRow
insert_desc p [] = p ∷ []
insert_desc p (q ∷ qs) =
    let later = q ∷ insert_desc p qs in
    if is_before p q.created_at.time q.id then later else p ∷ q ∷ qs

unfoldable pub sort_desc : List PostRow → List PostRow
unfolding insert_desc
sort_desc [] = []
sort_desc (p ∷ ps) = insert_desc p (sort_desc ps)

abbrev is_live_of : Uuid → PostRow → Bool
is_live_of author_id p = p.author_id == author_id && not p.deleted_at.valid

-- `LIMIT $2` takes an int32; a negative one is SQLSTATE 2201W.
unfoldable pub find_user_posts : Uuid → ℕ → Query (List PostRow)
find_user_posts author_id limit stamp t =
    if leb (2 ^ 31) limit
    then (err (pg_error "2201W"), t)
    else (ok (take limit (sort_desc (filter (is_live_of author_id) t.posts))), t)

unfoldable pub find_user_posts_with_cursor : Uuid → ℕ → Timestamptz → Uuid → Query (List PostRow)
find_user_posts_with_cursor author_id limit last_created_at last_id stamp t =
    if leb (2 ^ 31) limit then (err (pg_error "2201W"), t) else (
      ok (
          take limit (
            sort_desc (
              filter
                (λ p. is_live_of author_id p && is_before p (micros last_created_at).time last_id)
                t.posts))),
      t,
    )
