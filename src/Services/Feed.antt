-- ===== src/Services/Feed.antt =====
-- internal/services/feedService.go, over the interface of internal/cache/feedCacher.go.
pub mod Cursor
use blog_go.Prelude.{ℕ, Option, none, some, List, [], ◌∷◌}
use blog_go.Action.{Action, pure, ◌>>=◌}
use blog_go.Models.{Uuid, Post, PostPaginationCursor}
use blog_go.Cache.{FeedCacher}
use blog_go.Repositories.{PostRepository}
use blog_go.Repositories.Posts.{last_post}

unfoldable pub make_new_cursor : List Post → Option PostPaginationCursor
make_new_cursor [] = none
make_new_cursor (p ∷ ps) =
    let last = last_post p ps in some (record { last_id = last.id; last_time = last.created_at })

module _ {W : Type 0} (feeds : FeedCacher W) (posts : PostRepository W) where
  unfoldable pub get_from_feed :
      Uuid → Option PostPaginationCursor → ℕ → Action W (List Post × Option PostPaginationCursor)
  unfolding make_new_cursor
  get_from_feed user_id cursor limit = do
    post_ids ← feeds.get_feed_posts_ids user_id cursor limit
    found ← posts.get_posts_with_ids post_ids
    pure (found, make_new_cursor found)
