-- ===== src/Repositories/PostCache.antt =====
-- internal/repositories/postCacheWrapper.go
pub mod Order
pub mod Invariants
use blog_go.Prelude.{Option, none, some, List, [], ◌∷◌, ◌++◌, ◌==◌, if◌then◌else◌}
use blog_go.Errs.{wrap}
use blog_go.Action.{Action, pure, branch, ◌>>=◌, ◌>>◌, map_err, swallow}
use blog_go.Models.{Uuid, Time, Post}
use blog_go.Cache.{PostCacher}
use blog_go.Repositories.{PostRepository}

-- `postById[id]` of the map that the loop over the posts fills: the last post with that id.
post_by_id : List Post → Uuid → Option Post
post_by_id [] id = none
post_by_id (post ∷ posts) id =
    let later = post_by_id posts id in
    elim later [ some q ↦ some q | none ↦ if post.id == id then some post else none ]

-- The loop that fills `orderedPosts`.
unfoldable pub ordered_posts : List Post → List Uuid → List Post
unfolding post_by_id
ordered_posts posts [] = []
ordered_posts posts (id ∷ ids) =
    let rest = ordered_posts posts ids in
    elim (post_by_id posts id) [ some post ↦ post ∷ rest | none ↦ rest ]

module _ {W : Type 0} (repo : PostRepository W) (cache : PostCacher W) where
  -- An error of the cache does not undo the removal; `ErrNotFound` is not even logged.
  unfoldable pub remove_post : Post → Time → Action W (Unit {0})
  remove_post post remove_at =
      map_err (wrap "could not delete post") (repo.remove_post post remove_at)
      >> swallow (cache.remove_post_by_id post.id remove_at)

  unfoldable pub add_post : Post → Action W (Unit {0})
  add_post post = repo.add_post post >> swallow (cache.add_post post)

  -- `orderedPosts` is filled and dropped: what is returned is `cachedPosts`.
  return_posts : List Uuid → List Post → Action W (List Post)
  unfolding ordered_posts
  return_posts ids cached = let ordered = ordered_posts cached ids in pure cached

  -- The part after the look-up in the cache.
  fetch_missed : List Uuid → List Post → List Uuid → Action W (List Post)
  unfolding return_posts
  fetch_missed ids cached [] = return_posts ids cached
  fetch_missed ids cached (id ∷ missed) = do
    posts ← repo.get_posts_with_ids (id ∷ missed)
    swallow (cache.add_posts posts)
    return_posts ids (cached ++ posts)

  unfoldable pub get_posts_with_ids : List Uuid → Action W (List Post)
  unfolding fetch_missed
  get_posts_with_ids ids =
      branch (cache.get_posts_with_ids ids) (λ found. fetch_missed ids found.0 found.1)
        (λ e. fetch_missed ids [] ids)

  unfoldable pub post_cache_wrapper : PostRepository W
  post_cache_wrapper = record {
    add_post = add_post;
    remove_post = remove_post;
    get_post_by_id = repo.get_post_by_id;
    get_posts_with_ids = get_posts_with_ids;
    get_posts_by_author_id = repo.get_posts_by_author_id;
  }
