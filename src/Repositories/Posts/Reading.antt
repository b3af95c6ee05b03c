-- ===== src/Repositories/Posts/Reading.antt =====
-- `GetPostById` of internal/repositories/postRepository.go after `AddPost`.
use mathlib.Core.List.{Perm}
use mathlib.Core.List.Perm
use blog_go.Prelude.{
  subst, ℕ, ◌+◌, ◌≡◌, refl, ap, ◌∙◌, true, false, inl, inr, Option, none, some, List, [], ◌∷◌, ◌++◌,
  map, arith, ◌==◌, any, filter, find?, All, filter-append, filter-none, filter-All, find?-append,
}
use blog_go.Action.{Result, ok, ◌>>=◌, map_err}
use blog_go.Models.{AttachedMedia, Post, Uuid, Time}
use blog_go.Database.{Db, Tables, Stamp, PostMedium, PostRow, to_micros, served, answer, pool_exec}
use blog_go.Database.Posts
use blog_go.Database.Users.{cut_to}
use blog_go.Repositories.Posts.{
  to_int32, of_int32, to_post_params, to_add_post_attachments_params, to_attachment, to_attachments,
  to_post, add_post, get_post_by_id,
}
use blog_go.Repositories.Posts.Publishing.{published, add_post-atomic}

abbrev micros_option : Option Time → Option Time
micros_option none = none
micros_option (some t) = some (to_micros t)

-- A post as the server keeps it: whole microseconds, places of 32 bits, MIME types of 30 characters.
abbrev pub as_stored : Post → Post
as_stored post = record post {
  created_at = to_micros post.created_at;
  deleted_at = micros_option post.deleted_at;
  attached =
      map
        (λ (a : AttachedMedia). record a {
          mime_type = cut_to 30 a.mime_type;
          display_order = of_int32 (to_int32 a.display_order);
        })
        post.attached;
}

media_back :
    (attached : List AttachedMedia)
    → to_attachments (map Posts.stored_medium (to_add_post_attachments_params attached))
      ≡ map
          (λ (a : AttachedMedia). record a {
            mime_type = cut_to 30 a.mime_type;
            display_order = of_int32 (to_int32 a.display_order);
          })
          attached
unfolding to_attachments to_attachment to_add_post_attachments_params Posts.stored_medium
media_back [] = refl
media_back (a ∷ attached) = ground (arith, media_back attached)

post_back :
    (post : Post) (attached : List AttachedMedia)
    → to_post (Posts.stored_row (to_post_params post)) attached
      ≡ record (as_stored post) { attached = attached }
unfolding to_post to_post_params Posts.stored_row
post_back post attached = ground arith

abbrev rows_of : List AttachedMedia → List PostMedium
rows_of attached = map Posts.stored_medium (to_add_post_attachments_params attached)

rows_linked :
    (id : Uuid) (attached : List AttachedMedia)
    → All (λ a. a.post_id ≡ id) attached
    → All (λ m. (m.post_id == id) ≡ true) (rows_of attached)
unfolding to_add_post_attachments_params Posts.stored_medium
rows_linked id [] h = tt
rows_linked id (a ∷ attached) (h, hs) = (ground arith, rows_linked id attached hs)

row_found :
    (stamp : Stamp) (post : Post) (t : Tables)
    → any (λ p. p.id == post.id) t.posts ≡ false
    → find? (λ p. p.id == post.id) (published stamp post t).posts
      ≡ some (Posts.stored_row (to_post_params post))
unfolding Posts.stored_row to_post_params
row_found stamp post t new =
    find?-append (λ p. p.id == post.id) t.posts (Posts.stored_row (to_post_params post) ∷ []) new
    ∙ ground arith

media_found :
    (stamp : Stamp) (post : Post) (t : Tables)
    → any (λ m. m.post_id == post.id) t.post_media ≡ false
    → All (λ a. a.post_id ≡ post.id) post.attached
    → filter (λ m. m.post_id == post.id) (published stamp post t).post_media ≡ rows_of post.attached
media_found stamp post t new linked =
    let rows = rows_of post.attached in
    filter-append (λ m. m.post_id == post.id) t.post_media rows
    ∙ ap (λ l. l ++ filter (λ m. m.post_id == post.id) rows)
        (filter-none (λ m. m.post_id == post.id) t.post_media new)
    ∙ filter-All (λ m. m.post_id == post.id) rows (rows_linked post.id post.attached linked)

read_back :
    (id : Uuid) (db : Db) (row : PostRow) (media : List PostMedium)
    → ((n : ℕ) → db.faults n ≡ served)
    → find? (λ p. p.id == id) db.tables.posts ≡ some row
    → filter (λ m. m.post_id == id) db.tables.post_media ≡ media
    → (get_post_by_id id db).0
      ≡ ok (to_post row (to_attachments ((db.stamps (db.tick + 1)).media_order media)))
unfolding get_post_by_id ◌>>=◌ map_err pool_exec answer Posts.find_post_by_id
    Posts.find_linked_post_media
read_back id db row media answers found linked =
    ground (arith, answers db.tick, answers (db.tick + 1))

to_attachments-Perm :
    (stamp : Stamp) (attached : List AttachedMedia)
    → Perm (to_attachments (stamp.media_order (rows_of attached))) (
        map
          (λ (a : AttachedMedia). record a {
            mime_type = cut_to 30 a.mime_type;
            display_order = of_int32 (to_int32 a.display_order);
          })
          attached)
unfolding to_attachments
to_attachments-Perm stamp attached =
    subst (λ l. Perm (to_attachments (stamp.media_order (rows_of attached))) l)
      (media_back attached) (Perm.map to_attachment (stamp.media_order-Perm (rows_of attached)))

-- A post that `AddPost` stored is what `GetPostById` returns, with its times in whole microseconds, the
-- places of its media as 32-bit words and their MIME types without spaces beyond 30 characters; the
-- media come in any order, since the statement has none. For a new post whose media name it, and a
-- database that answers the reader.
pub get_post_by_id-add_post :
    (post : Post) (db db' : Db)
    → any (λ p. p.id == post.id) db.tables.posts ≡ false
    → any (λ m. m.post_id == post.id) db.tables.post_media ≡ false
    → All (λ a. a.post_id ≡ post.id) post.attached
    → add_post post db ≡ (ok tt, db')
    → ((n : ℕ) → db'.faults n ≡ served)
    → (attached : List AttachedMedia) × Perm attached (as_stored post).attached
      × ((get_post_by_id post.id db').0 ≡ ok (record (as_stored post) { attached = attached }))
get_post_by_id-add_post post db db' new_post new_media linked added answers =
    elim (add_post-atomic post db) [
      | inl (same, failed) ↦ absurd (failed (ap (λ (r : Result (Unit {0}) × Db). r.0) added))
      | inr (stamp, written, distinct) ↦
          let tables : db'.tables ≡ published stamp post db.tables = ground (arith, written) in
          let read = db'.stamps (db'.tick + 1) in
          (
            to_attachments (read.media_order (rows_of post.attached)),
            to_attachments-Perm read post.attached,
            read_back post.id db' _ _ answers
                  (ap (λ (t : Tables). find? (λ p. p.id == post.id) t.posts) tables
                    ∙ row_found stamp post db.tables new_post)
                  (ap (λ (t : Tables). filter (λ m. m.post_id == post.id) t.post_media) tables
                    ∙ media_found stamp post db.tables new_media linked)
                ∙ ap ok (post_back post _),
          )
    ]
