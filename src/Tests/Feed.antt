-- ===== src/Tests/Feed.antt =====
-- Two posts through internal/repositories/postCacheWrapper.go.
use blog_go.Prelude.{◌≡◌, refl, none, [], ◌∷◌, arith}
use blog_go.Action.{ok}
use blog_go.Models.{Post}
use blog_go.Cache.{PostCacher}
use blog_go.Repositories.{PostRepository}
use blog_go.Repositories.PostCache.{ordered_posts, get_posts_with_ids}
use blog_go.Repositories.PostCache.Order.{get_posts_with_ids-out_of_order}
use blog_go.Tests.Fixtures.{post_with}

abbrev newer : Post
newer = post_with 41 80 []

abbrev older : Post
older = post_with 40 70 []

-- Of two posts only the older one is cached.
abbrev pub cache_with : (W : Type 0) → Post → Post → PostCacher W
cache_with W newer older = record {
  add_post = λ post w. (ok tt, w);
  add_posts = λ posts w. (ok tt, w);
  remove_post_by_id = λ id at w. (ok tt, w);
  get_posts_with_ids = λ ids w. (ok (older ∷ [], newer.id ∷ []), w);
}

abbrev cache : PostCacher (Unit {0})
cache = cache_with (Unit {0}) newer older

abbrev pub repository_with : (W : Type 0) → Post → PostRepository W
repository_with W newer = record {
  add_post = λ post w. (ok tt, w);
  remove_post = λ post at w. (ok tt, w);
  get_post_by_id = λ id w. (ok newer, w);
  get_posts_with_ids = λ ids w. (ok (newer ∷ []), w);
  get_posts_by_author_id = λ author cursor limit w. (ok ([], none), w);
}

abbrev repository : PostRepository (Unit {0})
repository = repository_with (Unit {0}) newer

get_posts_with_ids-out_of_order_example :
    ((get_posts_with_ids repository cache (41 ∷ 40 ∷ []) tt).0 ≡ ok (older ∷ newer ∷ []))
    × (ordered_posts (older ∷ newer ∷ []) (41 ∷ 40 ∷ []) ≡ newer ∷ older ∷ [])
get_posts_with_ids-out_of_order_example =
    get_posts_with_ids-out_of_order repository cache newer older tt tt tt (λ e. ground arith) refl
      refl
