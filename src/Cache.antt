-- ===== src/Cache.antt =====
-- internal/cache: the interfaces of the three caches, over any state `W`, and the feeds' one.
pub mod Feed
pub mod Subs
pub mod Posts
use blog_go.Prelude.{ℕ, Bool, Option, List}
use blog_go.Action.{Action}
use blog_go.Models.{Uuid, Time, Post, PostPaginationCursor}

pub record FeedCacher (W : Type 0) : Type 0 where
  pub push_to_feeds : Uuid → Time → List Uuid → Action W (Unit {0})
  pub remove_from_feeds : Uuid → Time → List Uuid → Action W (Unit {0})
  pub get_feed_posts_ids : Uuid → Option PostPaginationCursor → ℕ → Action W (List Uuid)

pub record SubsCacher (W : Type 0) : Type 0 where
  pub subscribe_user_to : Uuid → Uuid → Action W (Unit {0})
  pub unsubscribe_user_from : Uuid → Uuid → Action W (Unit {0})
  pub follow_list_exists : Uuid → Action W Bool
  pub set_follows : Uuid → List Uuid → Action W (Unit {0})
  pub get_follows : Uuid → Action W (List Uuid)

-- `GetPostsWithIds` returns the posts that it found and the ids that it missed.
pub record PostCacher (W : Type 0) : Type 0 where
  pub add_post : Post → Action W (Unit {0})
  pub add_posts : List Post → Action W (Unit {0})
  pub remove_post_by_id : Uuid → Time → Action W (Unit {0})
  pub get_posts_with_ids : List Uuid → Action W (List Post × List Uuid)
