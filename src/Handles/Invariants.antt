-- ===== src/Handles/Invariants.antt =====
-- The handlers of internal/handles keep what the repositories, caches and token services below them
-- keep.
use blog_go.Action.Keeps.{Keeps, keeps_rules}
use blog_go.Prelude.{ℕ, Option, none, some, ◌≡◌, refl}
use blog_go.Models.{Uuid, UserLoginInfo, PostPaginationCursor}
use blog_go.Action.{Action}
use blog_go.Cache.{FeedCacher}
use blog_go.Repositories.{UserRepository, TokenRepository, PostRepository}
use blog_go.Repositories.Invariants.{UsersKeep, PostsKeep, RuntimeKeeps}
use blog_go.Services.{UuidText, Runtime}
use blog_go.Services.Auth.{authenticate_user, sign_jwt, rotate_jwt, logout_by_refresh}
use blog_go.Services.Users.Invariants.{
  create_user-Keeps, subscribe_to-Keeps, unsubscribe_from-Keeps,
}
use blog_go.Services.Posts.Invariants.{
  add_post-Keeps, remove_post_by_id-Keeps, get_posts_by_author_id-Keeps,
}
use blog_go.Services.Feed.{get_from_feed}
use blog_go.Handles.Context.{Value, Request, Binding, uuid_value, other_value}
use blog_go.Handles.Pagination.{CursorCodec}
use blog_go.Handles.Auth.{register, login, refresh, logout}
use blog_go.Handles.Posts.{get_posts_by_user_id, send_post, delete_post_by_id}
use blog_go.Handles.Feed.{get_posts}
use blog_go.Handles.Users.{call_service, with_author, subscribe_to_author, unsubscribe_from_author}

module _ {W : Type 0} (P : W → Type 0) where
  pub record TokensKeep (uuids : UuidText) (rt : Runtime W) (tokens : TokenRepository W)
      : Type 0 where
    pub sign : (user_id : Uuid) → Keeps P (sign_jwt uuids rt tokens user_id)
    pub rotate : (jti user_id : Uuid) → Keeps P (rotate_jwt uuids rt tokens jti user_id)
    pub logout : (jti : Uuid) → Keeps P (logout_by_refresh uuids rt tokens jti)

module _ {W : Type 0} {P : W → Type 0} {uuids : UuidText} {rt : Runtime W}
    {users : UserRepository W} {tokens : TokenRepository W} (binding : Binding) (req : Request)
    (runtime : RuntimeKeeps P rt) (accounts : UsersKeep P users)
    (pairs : TokensKeep P uuids rt tokens) where
  pub register-Keeps : Keeps P (register uuids rt users tokens binding req)
  unfolding register
  register-Keeps = search (keeps_rules, create_user-Keeps, pairs.sign)

  authenticate_user-Keeps : (info : UserLoginInfo) → Keeps P (authenticate_user rt users info)
  unfolding authenticate_user
  authenticate_user-Keeps info = search (keeps_rules, accounts.find_user)

  pub login-Keeps : Keeps P (login uuids rt users tokens binding req)
  unfolding login
  login-Keeps = search (keeps_rules, authenticate_user-Keeps, pairs.sign)

  pub refresh-Keeps : Keeps P (refresh uuids rt tokens req)
  unfolding refresh
  refresh-Keeps = search (keeps_rules, pairs.rotate)

  pub logout-Keeps : Keeps P (logout uuids rt tokens req)
  unfolding logout
  logout-Keeps = search (keeps_rules, pairs.logout)

module _ {W : Type 0} {P : W → Type 0} {rt : Runtime W} {posts : PostRepository W}
    (uuids : UuidText) (binding : Binding) (codec : CursorCodec) (req : Request)
    (runtime : RuntimeKeeps P rt) (keep : PostsKeep P posts) where
  pub send_post-Keeps : Keeps P (send_post rt posts binding req)
  unfolding send_post
  send_post-Keeps = search (keeps_rules, add_post-Keeps)

  pub delete_post_by_id-Keeps : Keeps P (delete_post_by_id uuids rt posts req)
  unfolding delete_post_by_id
  delete_post_by_id-Keeps = search (keeps_rules, remove_post_by_id-Keeps)

  pub get_posts_by_user_id-Keeps : Keeps P (get_posts_by_user_id uuids posts codec req)
  unfolding get_posts_by_user_id
  get_posts_by_user_id-Keeps = search (keeps_rules, get_posts_by_author_id-Keeps)

  module _ (feeds : FeedCacher W)
      (feeds_keep : (id : Uuid) (cursor : Option PostPaginationCursor) (limit : ℕ)
        → Keeps P (feeds.get_feed_posts_ids id cursor limit)) where
    get_from_feed-Keeps :
        (id : Uuid) (cursor : Option PostPaginationCursor) (limit : ℕ)
        → Keeps P (get_from_feed feeds posts id cursor limit)
    unfolding get_from_feed
    get_from_feed-Keeps id cursor limit = search (keeps_rules, feeds_keep, keep.get_posts_with_ids)

    pub get_posts-Keeps : Keeps P (get_posts feeds posts codec req)
    unfolding get_posts
    get_posts-Keeps = search (keeps_rules, get_from_feed-Keeps)

module _ {W : Type 0} {P : W → Type 0} {rt : Runtime W} {users : UserRepository W}
    (uuids : UuidText) (req : Request) (runtime : RuntimeKeeps P rt)
    (accounts : UsersKeep P users) where
  call_service-Keeps :
      (service : Uuid → Uuid → Action W (Unit {0}))
      → ((who whom : Uuid) → Keeps P (service who whom))
      → (value : Value) (author : Uuid) → Keeps P (call_service uuids service value author)
  unfolding call_service
  call_service-Keeps service keeps (uuid_value id) author = search (keeps_rules, keeps)
  call_service-Keeps service keeps other_value author = search keeps_rules

  with_author-Keeps :
      (service : Uuid → Uuid → Action W (Unit {0}))
      → ((who whom : Uuid) → Keeps P (service who whom))
      → (value : Option Value) → req.user_id ≡ value
      → Keeps P (with_author uuids service req)
  unfolding with_author
  with_author-Keeps service keeps none e = rw e (search keeps_rules)
  with_author-Keeps service keeps (some value) e =
      rw e (search (keeps_rules, call_service-Keeps service keeps))

  pub subscribe_to_author-Keeps : Keeps P (subscribe_to_author uuids users req)
  unfolding subscribe_to_author
  subscribe_to_author-Keeps =
      with_author-Keeps _ (subscribe_to-Keeps runtime accounts) req.user_id refl

  pub unsubscribe_from_author-Keeps : Keeps P (unsubscribe_from_author uuids users req)
  unfolding unsubscribe_from_author
  unsubscribe_from_author-Keeps =
      with_author-Keeps _ (unsubscribe_from-Keeps runtime accounts) req.user_id refl
