-- ===== src/Services/Feed/Cursor.antt =====
-- The cursor of internal/services/feedService.go over internal/repositories/postCacheWrapper.go and the
-- feed in Redis of internal/cache/feedCacher.go.
use blog_go.Prelude.{◌≡◌, ◌≢◌, subst, none, some, List, [], ◌∷◌, map, take, arith, All}
use blog_go.Action.{ok, ◌>>=◌, branch}
use blog_go.Models.{Uuid, Post}
use blog_go.Cache.{PostCacher}
use blog_go.Cache.Feed.{UuidCodes, SortedSets, feed_key, get_feed_posts_ids, feed_cacher}
use blog_go.Cache.Feed.Members.{IsTime}
use blog_go.Cache.Feed.Contents.{IsRedis}
use blog_go.Cache.Feed.Pages.{
  Entry, cursor_at, members_of, get_feed_posts_ids-first, get_feed_posts_ids-next,
}
use blog_go.Repositories.{PostRepository}
use blog_go.Repositories.PostCache.{post_cache_wrapper}
use blog_go.Repositories.PostCache.Order.{get_posts_with_ids-out_of_order}
use blog_go.Services.Feed.{get_from_feed}

abbrev pub entry_of : Post → Entry
entry_of p = record { id = p.id; at = p.created_at }

-- The first page of two posts, the first of which is not cached: it is returned reversed, and its cursor
-- is the first post's, so that the list of the feed for the next page starts with the second post again,
-- which the client has already. For members that are those of posts with times in range, a feed that
-- nobody writes to between the two requests, a Redis that keeps its members sorted and reads ranges as
-- documented, and a cache and a database that answer.
pub get_from_feed-repeats :
    {W : Type 0} (uuids : UuidCodes) {sets : SortedSets W} (redis : IsRedis sets)
    (repo : PostRepository W) (cache : PostCacher W) (user_id : Uuid) (p q : Post)
    (after : List Entry) (ids next : List Uuid) (w w0 w1 w2 v v' : W)
    → p.id ≢ q.id
    → All (λ e. IsTime e.at) (entry_of p ∷ entry_of q ∷ after)
    → redis.members w (feed_key uuids user_id) ≡ members_of uuids (entry_of p ∷ entry_of q ∷ after)
    → redis.members v (feed_key uuids user_id) ≡ members_of uuids (entry_of p ∷ entry_of q ∷ after)
    → get_feed_posts_ids uuids sets user_id none 2 w ≡ (ok ids, w0)
    → cache.get_posts_with_ids ids w0 ≡ (ok (q ∷ [], p.id ∷ []), w1)
    → repo.get_posts_with_ids (p.id ∷ []) w1 ≡ (ok (p ∷ []), w2)
    → get_feed_posts_ids uuids sets user_id (some (cursor_at (entry_of p))) 2 v ≡ (ok next, v')
    → ((get_from_feed (feed_cacher uuids sets) (post_cache_wrapper repo cache) user_id none 2 w).0
        ≡ ok (q ∷ p ∷ [], some (cursor_at (entry_of p))))
      × (next ≡ q.id ∷ map (λ e. e.id) (take 1 after))
unfolding get_from_feed feed_cacher post_cache_wrapper ◌>>=◌ branch
get_from_feed-repeats uuids redis repo cache user_id p q after ids next w w0 w1 w2 v v' differ times
      stored kept listed found fetched read =
    let first : ids ≡ p.id ∷ q.id ∷ [] =
      get_feed_posts_ids-first uuids redis user_id 2 w w0 ids (entry_of p ∷ entry_of q ∷ after)
        times stored listed in
    let cached : cache.get_posts_with_ids (p.id ∷ q.id ∷ []) w0 ≡ (ok (q ∷ [], p.id ∷ []), w1) =
      subst (λ l. cache.get_posts_with_ids l w0 ≡ (ok (q ∷ [], p.id ∷ []), w1)) first found in
    (
      ground (
        arith,
        listed,
        first,
        get_posts_with_ids-out_of_order repo cache p q w0 w1 w2 differ cached fetched,
      ),
      get_feed_posts_ids-next uuids redis user_id 2 v v' next [] (entry_of p) (entry_of q ∷ after)
          times kept read,
    )
