-- ===== src/Tests/Feeds.antt =====
-- The feeds of internal/cache/feedCacher.go over the sorted sets of the tests.
use blog_go.Prelude.{
  ℕ, ◌≡◌, refl, ◌&&◌, ◌||◌, none, some, take, List, [], ◌∷◌, map, arith, ◌==◌, elem, cut, digits,
}
use blog_go.Action.{ok}
use blog_go.Models.{Uuid, unix_milli}
use blog_go.Cache.Feed.{
  feed_member, feed_key, to_post_ids, push_to_feeds, remove_from_feeds, get_feed_posts_ids,
}
use blog_go.Cache.Feed.Contents.{limited, has_entry, push_to_feeds-has_entry}
use blog_go.Cache.Feed.Pages.{Entry, get_feed_posts_ids-next}
use blog_go.Tests.Fixtures.{actions}
use blog_go.Models.{Post}
use blog_go.Cache.Feed.{feed_cacher}
use blog_go.Repositories.PostCache.{post_cache_wrapper}
use blog_go.Services.Feed.{get_from_feed}
use blog_go.Services.Feed.Cursor.{get_from_feed-repeats}
use blog_go.Tests.Fixtures.{post_with}
use blog_go.Tests.Feed.{cache_with, repository_with}
use blog_go.Tests.Redis.{World, uuid_codes, sets, redis}

feeds : Unit {0}
unfolding actions redis unix_milli feed_member feed_key to_post_ids push_to_feeds remove_from_feeds
    get_feed_posts_ids cut digits
feeds = tt

abbrev empty : World
empty key = []

-- The user 2 gets post 4 at 9 ms, post 3 at 9 ms and post 5 at 7 ms.
abbrev filled : World
filled =
    (push_to_feeds uuid_codes sets 5 7_000_000 (2 ∷ [])
      (push_to_feeds uuid_codes sets 3 9_000_000 (2 ∷ 1 ∷ [])
        (push_to_feeds uuid_codes sets 4 9_000_000 (2 ∷ []) empty).1).1).1

abbrev page : List Uuid
page = 4 ∷ 3 ∷ []

feed_tests :
    ((get_feed_posts_ids uuid_codes sets 2 none 2 filled).0 ≡ ok page)
    × ((get_feed_posts_ids uuid_codes sets 2 none 0 filled).0 ≡ ok (4 ∷ 3 ∷ 5 ∷ []))
    × ((get_feed_posts_ids uuid_codes sets 1 none 2 filled).0 ≡ ok (3 ∷ []))
unfolding feeds
feed_tests = (refl, refl, refl)

abbrev entry : Uuid → ℕ → Entry
entry id at = record { id = id; at = at }

abbrev entries : List Entry
entries = entry 4 9_000_000 ∷ entry 3 9_000_000 ∷ entry 5 7_000_000 ∷ []

get_feed_posts_ids-next_example :
    3 ∷ 5 ∷ [] ≡ map (λ (e : Entry). e.id) (limited 2 (entry 3 9_000_000 ∷ entry 5 7_000_000 ∷ []))
unfolding feeds
get_feed_posts_ids-next_example =
    get_feed_posts_ids-next uuid_codes redis 2 2 filled filled (3 ∷ 5 ∷ []) [] (entry 4 9_000_000)
      (entry 3 9_000_000 ∷ entry 5 7_000_000 ∷ []) (omega arith, (omega arith, (omega arith, tt)))
      refl refl

abbrev pushed : World
pushed = (push_to_feeds uuid_codes sets 6 8_000_000 (1 ∷ []) filled).1

push_to_feeds-has_entry_example : has_entry uuid_codes redis pushed 1 6 8_000_000 ≡ (
    has_entry uuid_codes redis filled 1 6 8_000_000
    || (elem 1 (1 ∷ []) && (6 == 6 && unix_milli 8_000_000 == unix_milli 8_000_000)))
unfolding feeds
push_to_feeds-has_entry_example =
    push_to_feeds-has_entry uuid_codes redis 6 8_000_000 (1 ∷ []) filled pushed 1 6 8_000_000
      (omega arith) (omega arith) refl

abbrev removed : World
removed = (remove_from_feeds uuid_codes sets 3 9_000_000 (1 ∷ []) filled).1

abbrev fourth : Post
fourth = post_with 4 9_000_000 []

abbrev third : Post
third = post_with 3 9_000_000 []

get_from_feed-repeats_example :
    ((get_from_feed
        (feed_cacher uuid_codes sets)
        (post_cache_wrapper (repository_with World fourth) (cache_with World fourth third))
        2
        none
        2
        filled).0
      ≡ ok (third ∷ fourth ∷ [], some (record { last_id = 4; last_time = 9_000_000 })))
    × (3 ∷ 5 ∷ [] ≡ 3 ∷ map (λ (e : Entry). e.id) (take 1 (entry 5 7_000_000 ∷ [])))
unfolding feeds
get_from_feed-repeats_example =
    get_from_feed-repeats uuid_codes redis (repository_with World fourth)
      (cache_with World fourth third) 2 fourth third (entry 5 7_000_000 ∷ []) page (3 ∷ 5 ∷ [])
      filled filled filled filled filled filled (λ e. ground arith)
      (omega arith, (omega arith, (omega arith, tt))) refl refl refl refl refl refl
