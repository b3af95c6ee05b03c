-- ===== src/Cache/Posts/Documents.antt =====
-- What internal/cache/postCacher.go returns of the documents that Redis keeps.
use blog_go.Prelude.{
  true, false, Bool, ◌++◌, fun_ext, ◌≡◌, refl, ap, ◌∙◌, Option, none, some, List, [], ◌∷◌, map,
  filter, arith, if◌then◌else◌, Text, text_eq, String,
}
use blog_go.Action.{ok}
use blog_go.Action.Laws.{>>=-eq-ok, map_err-eq-ok}
use blog_go.Models.{Uuid, Time, Post}
use blog_go.Cache.Feed.{UuidCodes}
use blog_go.Cache.Posts.{
  Value, text_value, Json, json_set, expire, Found, absent, put, post_key, first_post, by_deletion,
  classify, collect, set_commands, add_post, get_posts_with_ids,
}

-- The document at each key is a post. JSON.MGET gives for each key the text of its post in a list, or
-- nil; JSON.SET puts a post at its key and EXPIRE changes none.
pub record IsJson {W : Type 0} (json : Json W) : Type 0 where
  pub document : W → Text → Option Post
  pub reply : Option Post → Option Value
  pub mget_ok :
      (keys : List Text) (w w' : W) (results : List (Option Value))
      → json.mget keys w ≡ (ok results, w')
      → results ≡ map (λ key. reply (document w key)) keys
  pub reply_none : reply none ≡ none
  pub reply_some :
      (w : W) (key : Text) (p : Post)
      → document w key ≡ some p
      → (text : String) × (reply (some p) ≡ some (text_value text))
        × (json.unmarshal text ≡ ok (p ∷ []))
  pub exec_ok :
      (key : Text) (p : Post) (ttl : Time) (w w' : W)
      → json.exec (json_set key p ∷ expire key ttl ∷ []) w ≡ (ok tt, w')
      → (k : Text) → document w' k ≡ (if text_eq key k then some p else document w k)

found_of : Option Post → Found
unfolding first_post
found_of none = absent
found_of (some p) = first_post (p ∷ [])

-- The specification: the posts that are not deleted, in the order of the identifiers, and the
-- identifiers that have no document.
abbrev live_post : Option Time → Post → List Post
live_post none post = post ∷ []
live_post (some at) post = []

abbrev live_of : Option Post → List Post
live_of none = []
live_of (some post) = live_post post.deleted_at post

abbrev is_none : Option Post → Bool
is_none none = true
is_none (some post) = false

abbrev pub live_posts : (Uuid → Option Post) → List Uuid → List Post
live_posts cached [] = []
live_posts cached (id ∷ ids) = live_of (cached id) ++ live_posts cached ids

abbrev pub split : (Uuid → Option Post) → List Uuid → List Post × List Uuid
split cached ids = (live_posts cached ids, filter (λ id. is_none (cached id)) ids)

by_deletion-put :
    (deleted_at : Option Time) (post : Post) (id : Uuid) (posts : List Post) (missed : List Uuid)
    → put (by_deletion deleted_at post) id (posts, missed)
      ≡ (live_post deleted_at post ++ posts, missed)
unfolding put by_deletion
by_deletion-put none post id posts missed = refl
by_deletion-put (some at) post id posts missed = refl

put-found_of :
    (d : Option Post) (id : Uuid) (posts : List Post) (missed : List Uuid)
    → put (found_of d) id (posts, missed)
      ≡ (live_of d ++ posts, if is_none d then id ∷ missed else missed)
unfolding put found_of first_post
put-found_of none id posts missed = refl
put-found_of (some post) id posts missed = by_deletion-put post.deleted_at post id posts missed

module _ {W : Type 0} (uuids : UuidCodes) {json : Json W} (redis : IsJson json) (ttl : Time) where
  abbrev pub cached : W → Uuid → Option Post
  cached w id = redis.document w (post_key uuids id)

  classify-read :
      (d : Option Post)
      → ((p : Post)
          → d ≡ some p
          → (text : String) × (redis.reply (some p) ≡ some (text_value text))
            × (json.unmarshal text ≡ ok (p ∷ [])))
      → classify json (redis.reply d) ≡ ok (found_of d)
  unfolding classify found_of first_post
  classify-read none read = ground (arith, redis.reply_none)
  classify-read (some p) read = ground (arith, read p refl)

  classify-reply :
      (w : W) (id : Uuid) → classify json (redis.reply (cached w id)) ≡ ok (found_of (cached w id))
  classify-reply w id = classify-read (cached w id) (redis.reply_some w (post_key uuids id))

  abbrev replies : W → List Uuid → List (Option Value)
  replies w ids = map (λ key. redis.reply (redis.document w key)) (map (post_key uuids) ids)

  collect-split :
      (w : W) (ids : List Uuid) → collect json ids (replies w ids) ≡ ok (split (cached w) ids)
  unfolding collect
  collect-split w [] = refl
  collect-split w (id ∷ ids) =
      let rest = split (cached w) ids in
      let found : collect json (id ∷ ids) (replies w (id ∷ ids))
          ≡ ok (put (found_of (cached w id)) id rest) =
        ground (arith, classify-reply w id, collect-split w ids) in
      found ∙ ap ok (put-found_of (cached w id) id rest.0 rest.1)

  -- `GetPostsWithIds` returns the live posts that Redis has, in the order of the identifiers, and as
  -- missed exactly the identifiers that Redis has no document for: a post that is cached as deleted is
  -- neither. For a Redis that reads documents as documented.
  pub get_posts_with_ids-split :
      (ids : List Uuid) (w w' : W) (posts : List Post) (missed : List Uuid)
      → get_posts_with_ids uuids json ttl ids w ≡ (ok (posts, missed), w')
      → (posts, missed) ≡ split (cached w) ids
  unfolding get_posts_with_ids
  get_posts_with_ids-split [] w w' posts missed got = ground arith
  get_posts_with_ids-split (id ∷ ids) w w' posts missed got =
      let (results, u, sent, read) = >>=-eq-ok _ _ w got in
      let listed = redis.mget_ok _ w u results (map_err-eq-ok _ _ w sent) in
      let done : collect json (id ∷ ids) results ≡ ok (posts, missed) = ground arith in
      ground (arith, ap (collect json (id ∷ ids)) listed, collect-split w (id ∷ ids))

  -- The posts that Redis has once `post` is added to those it had.
  abbrev pub with_post : Post → W → Uuid → Option Post
  with_post post w id =
      if text_eq (post_key uuids post.id) (post_key uuids id) then some post else cached w id

  -- After `AddPost` of a post, `GetPostsWithIds` returns what Redis had before with that post at its
  -- identifier: a live post is returned even if its identifier was missed or cached as deleted. For a
  -- Redis that reads and writes documents as documented.
  pub add_post-get_posts_with_ids :
      (post : Post) (ids : List Uuid) (w w' w'' : W) (posts : List Post) (missed : List Uuid)
      → add_post uuids json ttl post w ≡ (ok tt, w')
      → get_posts_with_ids uuids json ttl ids w' ≡ (ok (posts, missed), w'')
      → (posts, missed) ≡ split (with_post post w) ids
  unfolding add_post set_commands
  add_post-get_posts_with_ids post ids w w' w'' posts missed added got =
      get_posts_with_ids-split ids w' w'' posts missed got
      ∙ ap (λ c. split c ids)
          (fun_ext
            (λ id. redis.exec_ok (post_key uuids post.id) post ttl w w' added (post_key uuids id)))
