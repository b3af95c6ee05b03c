-- ===== src/Repositories.antt =====
-- internal/repositories: the interfaces that the services use, over any state `W`.
pub mod Users
pub mod Tokens
pub mod Accounts
pub mod Transaction
pub mod Posts
pub mod PostCache
pub mod UserCache
pub mod Invariants
use blog_go.Prelude.{ℕ, String, Bool, Option, List}
use blog_go.Action.{Action}
use blog_go.Models.{Uuid, Time, Post, PostPaginationCursor}
use blog_go.Database.{User}

pub record UserRepository (W : Type 0) : Type 0 where
  pub find_user_by_id : Uuid → Action W User
  pub find_user_by_login : String → Action W User
  pub find_user_by_login_or_email : String → String → Action W User
  pub add_user : User → Action W (Unit {0})
  pub get_subs : Uuid → Action W (List Uuid)
  pub subscribe_user_to : Uuid → Uuid → Action W (Unit {0})
  pub unsubscribe_user_from : Uuid → Uuid → Action W (Unit {0})

pub record TokenRepository (W : Type 0) : Type 0 where
  pub add_token : Uuid → Uuid → Time → Action W (Unit {0})
  pub try_to_delete_token : Uuid → Action W Bool
  pub delete_all_user_tokens : Uuid → Action W (Unit {0})

pub record PostRepository (W : Type 0) : Type 0 where
  pub add_post : Post → Action W (Unit {0})
  pub remove_post : Post → Time → Action W (Unit {0})
  pub get_post_by_id : Uuid → Action W Post
  pub get_posts_with_ids : List Uuid → Action W (List Post)
  pub get_posts_by_author_id :
      Uuid → Option PostPaginationCursor → ℕ → Action W (List Post × Option PostPaginationCursor)
