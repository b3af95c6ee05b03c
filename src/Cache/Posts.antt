-- ===== src/Cache/Posts.antt =====
-- internal/cache/postCacher.go. The client of Redis is a parameter, with the commands on JSON documents
-- that the file uses, and so is `json.Unmarshal`.
pub mod Documents
use text.Mathlib.Text.{◌==◌ as str_eq}
use blog_go.Prelude.{
  ℕ, not, Option, none, some, List, [], ◌∷◌, ◌++◌, map, ◌==◌, if◌then◌else◌, Text, codes, String,
}
use blog_go.Errs.{Error, sentinel, not_found, wrap, other, by_uuid, err_already_deleted}
use blog_go.Action.{Result, ok, err, Action, pure, fail, lift, ◌>>=◌, map_err}
use blog_go.Models.{Uuid, Time, Post}
use blog_go.Cache.{PostCacher}
use blog_go.Cache.Feed.{UuidCodes}

-- `interface{}` in a reply: a text, or another type.
pub data Value : Type 0 where
  text_value : String → Value
  other_value : Value

pub data JsonCommand : Type 0 where
  -- `JSONSet(key, "$", post)`
  json_set : Text → Post → JsonCommand
  expire : Text → Time → JsonCommand

pub record Json (W : Type 0) : Type 0 where
  pub exists : Text → Action W ℕ
  -- `JSONGet(key, "$.deleted_at")` and `JSONSet(key, "$.deleted_at", at)`
  pub get_deleted_at : Text → Action W String
  pub set_deleted_at : Text → Time → Action W (Unit {0})
  -- `JSONMGet("$", keys...)`
  pub mget : List Text → Action W (List (Option Value))
  pub exec : List JsonCommand → Action W (Unit {0})
  -- the posts of a reply's text
  pub unmarshal : String → Result (List Post)

unfoldable pub post_key : UuidCodes → Uuid → Text
post_key uuids id = codes "post:" ++ uuids.to_text id

-- What the reply for one identifier says: a post to return, a deleted post, which is left out, or that
-- the identifier was missed.
pub data Found : Type 0 where
  live : Post → Found
  hidden absent : Found

by_deletion : Option Time → Post → Found
by_deletion none post = live post
by_deletion (some at) post = hidden

unfoldable pub first_post : List Post → Found
unfolding by_deletion
first_post [] = absent
first_post (post ∷ posts) = by_deletion post.deleted_at post

unfoldable pub put : Found → Uuid → List Post × List Uuid → List Post × List Uuid
put (live post) id (posts, missed) = (post ∷ posts, missed)
put hidden id (posts, missed) = (posts, missed)
put absent id (posts, missed) = (posts, id ∷ missed)

module _ {W : Type 0} (json : Json W) where
  unfoldable pub classify : Option Value → Result Found
  unfolding first_post
  classify none = ok absent
  classify (some other_value) = err (other "unexpected type for post")
  classify (some (text_value text)) = elim (json.unmarshal text) [
    | err e ↦ err (wrap "failed to unmarshal post" e)
    | ok posts ↦ ok (first_post posts)
  ]

  -- The loop over the replies; Redis gives one for each key.
  unfoldable pub collect : List Uuid → List (Option Value) → Result (List Post × List Uuid)
  unfolding classify put
  collect (id ∷ ids) (result ∷ results) =
      let rest = collect ids results in
      elim (classify result) [
        | err e ↦ err e
        | ok found ↦ elim rest [ err e ↦ err e | ok parts ↦ ok (put found id parts) ]
      ]
  collect _ _ = ok ([], [])

-- `if result != "[]"`: the path has a value.
unless_deleted : {W : Type 0} → Action W (Unit {0}) → String → Action W (Unit {0})
unless_deleted set result =
    if not (str_eq result "[]")
    then fail (wrap "could not delete post" (sentinel err_already_deleted))
    else set

module _ {W : Type 0} (uuids : UuidCodes) (json : Json W) (ttl : Time) where
  unfoldable pub remove_post_by_id : Uuid → Time → Action W (Unit {0})
  unfolding post_key unless_deleted
  remove_post_by_id id remove_at =
      let key = post_key uuids id in
      json.exists key >>= λ exists.
      if exists == 0
      then fail (wrap "post does not exist" (not_found "RemovePostById" (by_uuid id)))
      else (json.get_deleted_at key >>= unless_deleted (json.set_deleted_at key remove_at))

  unfoldable pub set_commands : Post → List JsonCommand
  unfolding post_key
  set_commands post = let key = post_key uuids post.id in json_set key post ∷ expire key ttl ∷ []

  unfoldable pub add_post : Post → Action W (Unit {0})
  unfolding set_commands
  add_post post = json.exec (set_commands post)

  unfoldable pub all_commands : List Post → List JsonCommand
  unfolding set_commands
  all_commands [] = []
  all_commands (post ∷ posts) = set_commands post ++ all_commands posts

  unfoldable pub add_posts : List Post → Action W (Unit {0})
  unfolding all_commands
  add_posts posts = json.exec (all_commands posts)

  unfoldable pub get_posts_with_ids : List Uuid → Action W (List Post × List Uuid)
  unfolding post_key collect
  get_posts_with_ids [] = pure ([], [])
  get_posts_with_ids (id ∷ ids) = do
    results ← map_err (wrap "post fetch failed") (json.mget (map (post_key uuids) (id ∷ ids)))
    lift (collect json (id ∷ ids) results)

  unfoldable pub post_cacher : PostCacher W
  unfolding add_post add_posts remove_post_by_id get_posts_with_ids
  post_cacher = record {
    add_post = add_post;
    add_posts = add_posts;
    remove_post_by_id = remove_post_by_id;
    get_posts_with_ids = get_posts_with_ids;
  }
