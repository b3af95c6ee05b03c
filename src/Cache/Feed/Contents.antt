-- ===== src/Cache/Feed/Contents.antt =====
-- What internal/cache/feedCacher.go writes to the feeds, over what Redis documents of its commands.
use blog_go.Prelude.{
  ℕ, ◌^◌, ◌≡◌, ◌∙◌, Bool, true, not, ◌&&◌, ◌||◌, List, [], ◌∷◌, map, arith, leb, ◌==◌,
  if◌then◌else◌, any, filter, take, elem, All, Text, text_eq, text_ltb,
}
use blog_go.Action.{ok}
use blog_go.Models.{Uuid, Time, unix_milli}
use blog_go.Cache.Feed.{
  UuidCodes, Command, Start, SortedSets, zadd, zrem, highest, below, feed_key, feed_member,
  push_to_feeds, remove_from_feeds,
}
use blog_go.Cache.Feed.Members.{IsTime, text_eq-key, text_eq-member}

-- ZADD and ZREM, one after the other.
abbrev pub applied : List Command → Text → Text → Bool → Bool
applied [] k m h = h
applied (zadd k' m' ∷ cs) k m h = applied cs k m (h || (text_eq k' k && text_eq m' m))
applied (zrem k' m' ∷ cs) k m h = applied cs k m (h && not (text_eq k' k && text_eq m' m))

abbrev pub IsDescending : List Text → Type 0
IsDescending [] = Unit
IsDescending (m ∷ ms) = All (λ n. text_ltb n m ≡ true) ms × IsDescending ms

abbrev pub is_in : Start → Text → Bool
is_in highest m = true
is_in (below n) m = text_ltb m n

-- LIMIT with a count of 0 is left out by the client, and a negative count is no limit.
abbrev pub limited : {A : Type 0} → ℕ → List A → List A
limited count xs = if count == 0 || leb (2 ^ 63) count then xs else take count xs

-- What the code needs of Redis: the members of a key from the highest on, a pipeline that was executed
-- without an error, and ZRANGE with BYLEX and REV.
pub record IsRedis {W : Type 0} (sets : SortedSets W) : Type 0 where
  pub members : W → Text → List Text
  pub descending : (w : W) (key : Text) → IsDescending (members w key)
  pub exec_ok :
      (cs : List Command) (w w' : W)
      → sets.exec cs w ≡ (ok tt, w')
      → (key m : Text)
      → any (text_eq m) (members w' key) ≡ applied cs key m (any (text_eq m) (members w key))
  pub zrange_ok :
      (key : Text) (start : Start) (count : ℕ) (w w' : W) (ms : List Text)
      → sets.zrange_args key start count w ≡ (ok ms, w')
      → ms ≡ limited count (filter (is_in start) (members w key))

module _ (uuids : UuidCodes) (r : Uuid) (x m : Text) where
  applied-zadd :
      (subs : List Uuid) (h : Bool)
      → applied (map (λ s. zadd (feed_key uuids s) x) subs) (feed_key uuids r) m h
        ≡ (h || (elem r subs && text_eq x m))
  applied-zadd [] h = ground arith
  applied-zadd (s ∷ subs) h =
      applied-zadd subs (h || (text_eq (feed_key uuids s) (feed_key uuids r) && text_eq x m))
      ∙ ground (arith, text_eq-key uuids s r)

  applied-zrem :
      (subs : List Uuid) (h : Bool)
      → applied (map (λ s. zrem (feed_key uuids s) x) subs) (feed_key uuids r) m h
        ≡ (h && not (elem r subs && text_eq x m))
  applied-zrem [] h = ground arith
  applied-zrem (s ∷ subs) h =
      applied-zrem subs (h && not (text_eq (feed_key uuids s) (feed_key uuids r) && text_eq x m))
      ∙ ground (arith, text_eq-key uuids s r)

module _ {W : Type 0} (uuids : UuidCodes) {sets : SortedSets W} (redis : IsRedis sets) where
  -- The feed of a user has an entry of a post made at a time.
  abbrev pub has_entry : W → Uuid → Uuid → Time → Bool
  has_entry w s p t = any (text_eq (feed_member uuids t p)) (redis.members w (feed_key uuids s))

  -- A push that succeeds adds the post, at its millisecond, to the feeds of exactly the given users; a
  -- feed has at most one entry of a post at one millisecond, so that a repeated push adds nothing.
  pub push_to_feeds-has_entry :
      (id : Uuid) (at : Time) (subs : List Uuid) (w w' : W) (s p : Uuid) (t : Time)
      → IsTime at
      → IsTime t
      → push_to_feeds uuids sets id at subs w ≡ (ok tt, w')
      → has_entry w' s p t
        ≡ (has_entry w s p t || (elem s subs && (p == id && unix_milli t == unix_milli at)))
  unfolding push_to_feeds
  push_to_feeds-has_entry id at subs w w' s p t time time' pushed =
      redis.exec_ok _ w w' pushed (feed_key uuids s) (feed_member uuids t p)
      ∙ applied-zadd uuids s (feed_member uuids at id) (feed_member uuids t p) subs _
      ∙ ground (arith, text_eq-member uuids at t id p time time')

  -- A removal that succeeds takes the post, at its millisecond, from the feeds of exactly the given
  -- users.
  pub remove_from_feeds-has_entry :
      (id : Uuid) (at : Time) (subs : List Uuid) (w w' : W) (s p : Uuid) (t : Time)
      → IsTime at
      → IsTime t
      → remove_from_feeds uuids sets id at subs w ≡ (ok tt, w')
      → has_entry w' s p t
        ≡ (has_entry w s p t && not (elem s subs && (p == id && unix_milli t == unix_milli at)))
  unfolding remove_from_feeds
  remove_from_feeds-has_entry id at subs w w' s p t time time' removed =
      redis.exec_ok _ w w' removed (feed_key uuids s) (feed_member uuids t p)
      ∙ applied-zrem uuids s (feed_member uuids at id) (feed_member uuids t p) subs _
      ∙ ground (arith, text_eq-member uuids at t id p time time')
