-- ===== src/Routes/World.antt =====
-- The application of internal/routes/routes.go over the database, a Redis and a machine that has the
-- clock and the random source: each part of the program reaches its own part of the world.
use blog_go.Prelude.{String, Option}
use blog_go.Errs.{Error}
use blog_go.Action.{Action}
use blog_go.Cache.{FeedCacher, SubsCacher, PostCacher}
use blog_go.Database.{Db}
use blog_go.Repositories.{UserRepository, TokenRepository, PostRepository}
use blog_go.Repositories.Users.{user_repository}
use blog_go.Repositories.Tokens.{token_repository}
use blog_go.Repositories.Posts.{post_repository}
use blog_go.Services.{UuidText, Runtime}
use blog_go.Middleware.Jwt.{JwtLibrary}
use blog_go.Handles.Context.{Binding}
use blog_go.Handles.Pagination.{CursorCodec}
use blog_go.Routes.{App}

pub record World (R M : Type 0) : Type 0 where
  pub db : Db
  pub redis : R
  pub machine : M

module _ {R M A : Type 0} where
  unfoldable pub in_db : Action Db A → Action (World R M) A
  in_db m w = let (r, db) = m w.db in (r, record w { db = db })

  unfoldable pub in_redis : Action R A → Action (World R M) A
  in_redis m w = let (r, redis) = m w.redis in (r, record w { redis = redis })

  unfoldable pub in_machine : Action M A → Action (World R M) A
  in_machine m w = let (r, machine) = m w.machine in (r, record w { machine = machine })

-- The libraries and the clients of Redis and of the machine.
pub record Parts (R M : Type 0) : Type 0 where
  pub feed_cacher : FeedCacher R
  pub subs_cacher : SubsCacher R
  pub post_cacher : PostCacher R
  pub runtime : Runtime M
  pub uuids : UuidText
  pub jwt : JwtLibrary
  pub binding : Binding
  pub codec : CursorCodec
  pub to_lower : String → String
  pub request_ends : Option Error

module _ {R M : Type 0} where
  unfoldable pub world_tokens : TokenRepository (World R M)
  unfolding in_db token_repository
  world_tokens = record {
    add_token = λ jti user_id at. in_db (token_repository.add_token jti user_id at);
    try_to_delete_token = λ jti. in_db (token_repository.try_to_delete_token jti);
    delete_all_user_tokens = λ user_id. in_db (token_repository.delete_all_user_tokens user_id);
  }

  unfoldable pub world_users : UserRepository (World R M)
  unfolding in_db user_repository
  world_users = record {
    find_user_by_id = λ id. in_db (user_repository.find_user_by_id id);
    find_user_by_login = λ login. in_db (user_repository.find_user_by_login login);
    find_user_by_login_or_email =
        λ login email. in_db (user_repository.find_user_by_login_or_email login email);
    add_user = λ user. in_db (user_repository.add_user user);
    get_subs = λ id. in_db (user_repository.get_subs id);
    subscribe_user_to = λ who whom. in_db (user_repository.subscribe_user_to who whom);
    unsubscribe_user_from = λ who whom. in_db (user_repository.unsubscribe_user_from who whom);
  }

  unfoldable pub world_posts : PostRepository (World R M)
  unfolding in_db post_repository
  world_posts = record {
    add_post = λ post. in_db (post_repository.add_post post);
    remove_post = λ post at. in_db (post_repository.remove_post post at);
    get_post_by_id = λ id. in_db (post_repository.get_post_by_id id);
    get_posts_with_ids = λ ids. in_db (post_repository.get_posts_with_ids ids);
    get_posts_by_author_id =
        λ author cursor limit. in_db (post_repository.get_posts_by_author_id author cursor limit);
  }

module _ {R M : Type 0} (parts : Parts R M) where
  unfoldable pub world_runtime : Runtime (World R M)
  unfolding in_machine
  world_runtime = record {
    now = in_machine parts.runtime.now;
    new_uuid = in_machine parts.runtime.new_uuid;
    create_hash = λ password. in_machine (parts.runtime.create_hash password);
    compare_password_and_hash = parts.runtime.compare_password_and_hash;
    sign = parts.runtime.sign;
  }

  unfoldable pub world_feeds : FeedCacher (World R M)
  unfolding in_redis
  world_feeds =
      let c = parts.feed_cacher in
      record {
        push_to_feeds = λ id at subs. in_redis (c.push_to_feeds id at subs);
        remove_from_feeds = λ id at subs. in_redis (c.remove_from_feeds id at subs);
        get_feed_posts_ids = λ id cursor limit. in_redis (c.get_feed_posts_ids id cursor limit);
      }

  unfoldable pub world_subs : SubsCacher (World R M)
  unfolding in_redis
  world_subs =
      let c = parts.subs_cacher in
      record {
        subscribe_user_to = λ who whom. in_redis (c.subscribe_user_to who whom);
        unsubscribe_user_from = λ who whom. in_redis (c.unsubscribe_user_from who whom);
        follow_list_exists = λ id. in_redis (c.follow_list_exists id);
        set_follows = λ id subs. in_redis (c.set_follows id subs);
        get_follows = λ id. in_redis (c.get_follows id);
      }

  unfoldable pub world_post_cache : PostCacher (World R M)
  unfolding in_redis
  world_post_cache =
      let c = parts.post_cacher in
      record {
        add_post = λ post. in_redis (c.add_post post);
        add_posts = λ posts. in_redis (c.add_posts posts);
        remove_post_by_id = λ id at. in_redis (c.remove_post_by_id id at);
        get_posts_with_ids = λ ids. in_redis (c.get_posts_with_ids ids);
      }

  abbrev pub world_app : App (World R M)
  world_app = record {
    user_repo = world_users;
    token_repo = world_tokens;
    post_repo = world_posts;
    feed_cacher = world_feeds;
    subs_cacher = world_subs;
    post_cacher = world_post_cache;
    runtime = world_runtime;
    uuids = parts.uuids;
    jwt = parts.jwt;
    binding = parts.binding;
    codec = parts.codec;
    to_lower = parts.to_lower;
    request_ends = parts.request_ends;
  }
