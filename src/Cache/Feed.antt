-- ===== src/Cache/Feed.antt =====
-- internal/cache/feedCacher.go. The client of Redis is a parameter, with the three commands that the
-- file uses; the score of every member is 0.
pub mod Members
pub mod Contents
pub mod Pages
use blog_go.Prelude.{
  ℕ, zero, suc, ◌+◌, ◌^◌, ◌≡◌, Option, none, some, List, [], ◌∷◌, ◌++◌, map, ltb, if◌then◌else◌,
  Text, codes, cut, digits,
}
use blog_go.Action.{Result, ok, err, Action, pure, ◌>>=◌}
use blog_go.Models.{Uuid, Time, PostPaginationCursor, unix_milli}
use blog_go.Cache.{FeedCacher}

-- `uuid.UUID.String` and `uuid.Parse`.
pub record UuidCodes : Type 0 where
  pub to_text : Uuid → Text
  pub parse : Text → Result Uuid
  pub parse-to_text : (id : Uuid) → parse (to_text id) ≡ ok id

-- A command of a pipeline: its key and its member.
pub data Command : Type 0 where
  zadd zrem : Text → Text → Command

-- Where a range over the members in reverse lexical order starts: `+`, or `(` and a member.
pub data Start : Type 0 where
  highest : Start
  below : Text → Start

pub record SortedSets (W : Type 0) : Type 0 where
  pub exec : List Command → Action W (Unit {0})
  pub zrange_args : Text → Start → ℕ → Action W (List Text)

-- The least width from `w` on that holds a number.
width : ℕ → ℕ → ℕ → ℕ
width zero w n = w
width (suc fuel) w n = let wider = width fuel (suc w) n in if ltb n (10 ^ w) then w else wider

-- `%013d`: an int64 has at most 19 digits.
abbrev padded : ℕ → Text
padded n = digits (width 6 13 n) n

module _ (uuids : UuidCodes) where
  unfoldable pub feed_member : Time → Uuid → Text
  unfolding width
  feed_member created_at post_id = padded (unix_milli created_at) ++ b':' ∷ uuids.to_text post_id

  unfoldable pub feed_key : Uuid → Text
  feed_key user_id = codes "user:" ++ (uuids.to_text user_id ++ codes ":feed")

  start_of : Option PostPaginationCursor → Start
  unfolding feed_member
  start_of none = highest
  start_of (some cursor) = below (feed_member cursor.last_time cursor.last_id)

  -- The identifier of a member; a member that is none is left out.
  pub id_part : Text → Text
  id_part member = elim (cut b':' member) [ some (_, id) ↦ id | none ↦ [] ]

  unfoldable pub to_post_ids : List Text → List Uuid
  unfolding id_part
  to_post_ids [] = []
  to_post_ids (member ∷ members) =
      let rest = to_post_ids members in
      elim (uuids.parse (id_part member)) [ ok id ↦ id ∷ rest | err e ↦ rest ]

module _ {W : Type 0} (uuids : UuidCodes) (sets : SortedSets W) where
  unfoldable pub push_to_feeds : Uuid → Time → List Uuid → Action W (Unit {0})
  push_to_feeds post_id created_at subs_ids =
      sets.exec
        (map (λ id. zadd (feed_key uuids id) (feed_member uuids created_at post_id)) subs_ids)

  unfoldable pub remove_from_feeds : Uuid → Time → List Uuid → Action W (Unit {0})
  remove_from_feeds post_id created_at subs_ids =
      sets.exec
        (map (λ id. zrem (feed_key uuids id) (feed_member uuids created_at post_id)) subs_ids)

  unfoldable pub get_feed_posts_ids : Uuid → Option PostPaginationCursor → ℕ → Action W (List Uuid)
  unfolding start_of
  get_feed_posts_ids user_id cursor limit = do
    members ← sets.zrange_args (feed_key uuids user_id) (start_of uuids cursor) limit
    pure (to_post_ids uuids members)

  unfoldable pub feed_cacher : FeedCacher W
  feed_cacher = record {
    push_to_feeds = push_to_feeds;
    remove_from_feeds = remove_from_feeds;
    get_feed_posts_ids = get_feed_posts_ids;
  }
