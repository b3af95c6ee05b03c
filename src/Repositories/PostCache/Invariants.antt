-- ===== src/Repositories/PostCache/Invariants.antt =====
-- internal/repositories/postCacheWrapper.go keeps what its repository and its cache keep.
use blog_go.Prelude.{List, [], ◌∷◌}
use blog_go.Action.Keeps.{Keeps, keeps_rules}
use blog_go.Models.{Uuid, Time, Post}
use blog_go.Cache.{PostCacher}
use blog_go.Repositories.{PostRepository}
use blog_go.Repositories.Invariants.{PostsKeep, PostCacheKeeps}
use blog_go.Repositories.PostCache.{
  remove_post, add_post, return_posts, fetch_missed, get_posts_with_ids, post_cache_wrapper,
}

module _ {W : Type 0} {P : W → Type 0} {repo : PostRepository W} {cache : PostCacher W}
    (posts : PostsKeep P repo) (cached : PostCacheKeeps P cache) where
  remove_post-Keeps : (post : Post) (at : Time) → Keeps P (remove_post repo cache post at)
  unfolding remove_post
  remove_post-Keeps post at = search (keeps_rules, posts.remove_post, cached.remove_post)

  add_post-Keeps : (post : Post) → Keeps P (add_post repo cache post)
  unfolding add_post
  add_post-Keeps post = search (keeps_rules, posts.add_post, cached.add_post)

  fetch_missed-Keeps :
      (ids : List Uuid) (found : List Post) (missed : List Uuid)
      → Keeps P (fetch_missed repo cache ids found missed)
  unfolding fetch_missed return_posts
  fetch_missed-Keeps ids found [] = search keeps_rules
  fetch_missed-Keeps ids found (id ∷ missed) =
      search (keeps_rules, posts.get_posts_with_ids, cached.add_posts)

  get_posts_with_ids-Keeps : (ids : List Uuid) → Keeps P (get_posts_with_ids repo cache ids)
  unfolding get_posts_with_ids
  get_posts_with_ids-Keeps ids = search (keeps_rules, cached.get_posts, fetch_missed-Keeps)

  pub post_cache_wrapper-PostsKeep : PostsKeep P (post_cache_wrapper repo cache)
  unfolding post_cache_wrapper
  post_cache_wrapper-PostsKeep = record {
    add_post = add_post-Keeps;
    remove_post = remove_post-Keeps;
    get_post_by_id = posts.get_post_by_id;
    get_posts_with_ids = get_posts_with_ids-Keeps;
    get_posts_by_author_id = posts.get_posts_by_author_id;
  }
