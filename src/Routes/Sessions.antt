-- ===== src/Routes/Sessions.antt =====
-- Refresh tokens over any history of requests to any route of internal/routes/routes.go.
use blog_go.Prelude.{Bool, ◌≡◌, ◌≢◌, false, arith}
use blog_go.Action.{ok, Action}
use blog_go.Action.Keeps.{Keeps}
use blog_go.Models.{Uuid}
use blog_go.Database.{Db}
use blog_go.Repositories.Transaction.Invariants.{On}
use blog_go.Repositories.Tokens.Elsewhere.{Lacks}
use blog_go.Repositories.Tokens.Revocation.{
  is_allowed, try_to_delete_token-eq-ok, try_to_delete_token-IsOff, add_token-IsOff,
}
use blog_go.Repositories.Tokens.Others.{
  find_user_by_login_or_email-IsOff, add_user-IsOff, get_subs-IsOff, subscribe_user_to-IsOff,
  unsubscribe_user_from-IsOff,
}
use blog_go.Repositories.Posts.Tokens.{
  add_post-IsOff, remove_post-IsOff, get_post_by_id-IsOff, get_posts_with_ids-IsOff,
  get_posts_by_author_id-IsOff,
}
use blog_go.Repositories.Invariants.{UsersKeep, PostsKeep}
use blog_go.Routes.Invariants.{AppKeeps}
use blog_go.Repositories.Users.{user_repository}
use blog_go.Repositories.Posts.{post_repository}
use blog_go.Repositories.Tokens.{token_repository}
use blog_go.Services.Auth.AllowList.{
  AllowList, sign_jwt-IsOff, rotate_jwt-IsOff, logout_by_refresh-IsOff,
}
use blog_go.Routes.World.{
  World, Parts, in_db, in_redis, in_machine, world_users, world_posts, world_tokens, world_runtime,
  world_feeds, world_subs, world_post_cache, world_app,
}

module _ {R M : Type 0} (jti : Uuid) where
  -- The token is off the allow list of the world's database.
  abbrev pub IsOffAt : World R M → Type 0
  IsOffAt w = Lacks jti w.db.tables

  module _ {A : Type 0} where
    pub in_db-IsOff : (m : Action Db A) → Keeps (On (Lacks jti)) m → Keeps IsOffAt (in_db m)
    unfolding in_db
    in_db-IsOff m keeps = record { at = λ w off. keeps.at w.db off }

    pub in_redis-IsOff : (m : Action R A) → Keeps IsOffAt (in_redis m)
    unfolding in_redis
    in_redis-IsOff m = record { at = λ w off. off }

    pub in_machine-IsOff : (m : Action M A) → Keeps IsOffAt (in_machine m)
    unfolding in_machine
    in_machine-IsOff m = record { at = λ w off. off }

  world_users-UsersKeep : UsersKeep IsOffAt world_users
  unfolding world_users user_repository
  world_users-UsersKeep = record {
    find_user = λ login email. in_db-IsOff _ (find_user_by_login_or_email-IsOff jti login email);
    add_user = λ user. in_db-IsOff _ (add_user-IsOff jti user);
    get_subs = λ id. in_db-IsOff _ (get_subs-IsOff jti id);
    subscribe = λ who whom. in_db-IsOff _ (subscribe_user_to-IsOff jti who whom);
    unsubscribe = λ who whom. in_db-IsOff _ (unsubscribe_user_from-IsOff jti who whom);
  }

  world_posts-PostsKeep : PostsKeep IsOffAt world_posts
  unfolding world_posts post_repository
  world_posts-PostsKeep = record {
    add_post = λ post. in_db-IsOff _ (add_post-IsOff jti post);
    remove_post = λ post at. in_db-IsOff _ (remove_post-IsOff jti post at);
    get_post_by_id = λ id. in_db-IsOff _ (get_post_by_id-IsOff jti id);
    get_posts_with_ids = λ ids. in_db-IsOff _ (get_posts_with_ids-IsOff jti ids);
    get_posts_by_author_id =
        λ author cursor limit. in_db-IsOff _ (get_posts_by_author_id-IsOff jti author cursor limit);
  }

pub world-deleted :
    {R M : Type 0} (jti : Uuid) (w w' : World R M) (r : Bool)
    → world_tokens.try_to_delete_token jti w ≡ (ok r, w')
    → (r ≡ is_allowed jti w.db.tables) × (is_allowed jti w'.db.tables ≡ false)
unfolding world_tokens token_repository in_db
world-deleted jti w w' r h = try_to_delete_token-eq-ok jti w.db w'.db r (ground arith)

module _ {R M : Type 0} (parts : Parts R M) where
  -- The table of the world's database is the allow list.
  unfoldable pub world_list : AllowList (world_runtime parts) world_tokens
  unfolding world_runtime world_tokens token_repository in_db
  world_list = record {
    is_listed = λ jti w. is_allowed jti w.db.tables;
    deleted = world-deleted;
    delete_keeps = λ jti j. in_db-IsOff jti _ (try_to_delete_token-IsOff jti j);
    add_keeps = λ jti j user at other. in_db-IsOff jti _ (add_token-IsOff jti j user at other);
    now_keeps = λ jti. in_machine-IsOff jti _;
    new_uuid_keeps = λ jti. in_machine-IsOff jti _;
  }

  module _ (jti : Uuid) (fresh : (m : M) → (parts.runtime.new_uuid m).0 ≢ ok jti) where
    pub world-fresh : (w : World R M) → ((world_runtime parts).new_uuid w).0 ≢ ok jti
    unfolding world_runtime in_machine
    world-fresh w = fresh w.machine

    pub world_app-AppKeeps : AppKeeps (IsOffAt jti) (world_app parts)
    unfolding world_list world_runtime world_feeds world_subs world_post_cache
    world_app-AppKeeps = record {
      users = world_users-UsersKeep jti;
      posts = world_posts-PostsKeep jti;
      feeds = λ id cursor limit. in_redis-IsOff jti _;
      subs = record {
        subscribe = λ who whom. in_redis-IsOff jti _;
        unsubscribe = λ who whom. in_redis-IsOff jti _;
        exists = λ id. in_redis-IsOff jti _;
        set_follows = λ id subs. in_redis-IsOff jti _;
        get_follows = λ id. in_redis-IsOff jti _;
      };
      cached = record {
        add_post = λ post. in_redis-IsOff jti _;
        add_posts = λ posts. in_redis-IsOff jti _;
        remove_post = λ id at. in_redis-IsOff jti _;
        get_posts = λ ids. in_redis-IsOff jti _;
      };
      runtime = record {
        now = in_machine-IsOff jti _;
        new_uuid = in_machine-IsOff jti _;
        create_hash = λ password. in_machine-IsOff jti _;
      };
      tokens = record {
        sign = sign_jwt-IsOff parts.uuids world_list jti world-fresh;
        rotate = rotate_jwt-IsOff parts.uuids world_list jti world-fresh;
        logout = logout_by_refresh-IsOff parts.uuids world_list jti world-fresh;
      };
    }
