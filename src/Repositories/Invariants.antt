-- ===== src/Repositories/Invariants.antt =====
-- Implementations of the interfaces of internal/repositories, internal/cache and internal/services all
-- of whose methods keep an invariant of the state.
use blog_go.Prelude.{ℕ, String, Option, List}
use blog_go.Action.Keeps.{Keeps}
use blog_go.Models.{Uuid, Time, Post, PostPaginationCursor}
use blog_go.Database.{User}
use blog_go.Cache.{SubsCacher, PostCacher}
use blog_go.Repositories.{UserRepository, PostRepository}
use blog_go.Services.{Runtime}

module _ {W : Type 0} (P : W → Type 0) where
  pub record UsersKeep (users : UserRepository W) : Type 0 where
    pub find_user : (login email : String) → Keeps P (users.find_user_by_login_or_email login email)
    pub add_user : (user : User) → Keeps P (users.add_user user)
    pub get_subs : (id : Uuid) → Keeps P (users.get_subs id)
    pub subscribe : (who whom : Uuid) → Keeps P (users.subscribe_user_to who whom)
    pub unsubscribe : (who whom : Uuid) → Keeps P (users.unsubscribe_user_from who whom)

  pub record PostsKeep (posts : PostRepository W) : Type 0 where
    pub add_post : (post : Post) → Keeps P (posts.add_post post)
    pub remove_post : (post : Post) (at : Time) → Keeps P (posts.remove_post post at)
    pub get_post_by_id : (id : Uuid) → Keeps P (posts.get_post_by_id id)
    pub get_posts_with_ids : (ids : List Uuid) → Keeps P (posts.get_posts_with_ids ids)
    pub get_posts_by_author_id :
        (author : Uuid) (cursor : Option PostPaginationCursor) (limit : ℕ)
        → Keeps P (posts.get_posts_by_author_id author cursor limit)

  pub record SubsCacheKeeps (cache : SubsCacher W) : Type 0 where
    pub subscribe : (who whom : Uuid) → Keeps P (cache.subscribe_user_to who whom)
    pub unsubscribe : (who whom : Uuid) → Keeps P (cache.unsubscribe_user_from who whom)
    pub exists : (id : Uuid) → Keeps P (cache.follow_list_exists id)
    pub set_follows : (id : Uuid) (subs : List Uuid) → Keeps P (cache.set_follows id subs)
    pub get_follows : (id : Uuid) → Keeps P (cache.get_follows id)

  pub record PostCacheKeeps (cache : PostCacher W) : Type 0 where
    pub add_post : (post : Post) → Keeps P (cache.add_post post)
    pub add_posts : (posts : List Post) → Keeps P (cache.add_posts posts)
    pub remove_post : (id : Uuid) (at : Time) → Keeps P (cache.remove_post_by_id id at)
    pub get_posts : (ids : List Uuid) → Keeps P (cache.get_posts_with_ids ids)

  pub record RuntimeKeeps (rt : Runtime W) : Type 0 where
    pub now : Keeps P rt.now
    pub new_uuid : Keeps P rt.new_uuid
    pub create_hash : (password : String) → Keeps P (rt.create_hash password)
