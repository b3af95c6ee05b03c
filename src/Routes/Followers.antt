-- ===== src/Routes/Followers.antt =====
-- `GetSubs` of the application in internal/routes/routes.go: internal/repositories/userCacheWrapper.go
-- over the table of the database and the lists that internal/cache/subsCacher.go keeps in Redis.
pub mod Writes
pub mod Stale
use blog_go.Prelude.{◌≡◌, refl, sym, ap, ◌∙◌, subst, List, filter, map, ◌==◌, elem, arith}
use blog_go.Action.{ok}
use blog_go.Action.Laws.{map_err-eq-ok, map_err-state}
use blog_go.Models.{Uuid}
use blog_go.Database.{Db, pool_exec}
use blog_go.Database.Statements.{pool_exec-eq-ok, pool_exec-tables}
use blog_go.Database.Users.{get_subscribers}
use blog_go.Cache.Feed.{UuidCodes}
use blog_go.Cache.Subs.{Sets, subs_cacher}
use blog_go.Cache.Subs.Redis.{IsRedisSets}
use blog_go.Cache.Subs.Lists.{InSync, get_follows-InSync, get_follows-right, set_follows-InSync}
use blog_go.Repositories.Users.{user_repository, get_subs}
use blog_go.Repositories.Users.Follows.{follows, elem-subscribers}
use blog_go.Repositories.UserCache.{user_cache_wrapper}
use blog_go.Repositories.UserCache.Sync.{Mirror, get_subs-follows_table}
use blog_go.Routes.{user_repo_wrapper}
use blog_go.Routes.World.{World, Parts, in_db, in_redis, world_users, world_subs, world_app}

pub get_subs-tables : (a : Uuid) (db : Db) → (get_subs a db).1.tables ≡ db.tables
unfolding get_subs get_subscribers
get_subs-tables a db =
    ap (λ (d : Db). d.tables) (map_err-state _ (pool_exec (get_subscribers a)) db)
    ∙ ground (arith, pool_exec-tables (get_subscribers a) db)

get_subs-stored :
    (a : Uuid) (db db' : Db) (l : List Uuid)
    → get_subs a db ≡ (ok l, db')
    → (s : Uuid) → elem s l ≡ follows s a db.tables
unfolding get_subs get_subscribers
get_subs-stored a db db' l got s =
    let ran = pool_exec-eq-ok (get_subscribers a) db db' l (map_err-eq-ok _ _ db got) in
    let rows : map (λ r. r.sub_id) (filter (λ r. r.auth_id == a) db.tables.subscriber_author) ≡ l =
      ground arith in
    sym (ap (elem s) rows) ∙ elem-subscribers s a db.tables.subscriber_author

module _ {R M : Type 0} (parts : Parts R M) (uuids : UuidCodes) (sets : Sets R) where
  -- The application with the cache of the file.
  abbrev pub cached_parts : Parts R M
  cached_parts = record parts { subs_cacher = subs_cacher uuids sets }

  module _ (redis : IsRedisSets sets) where
    -- Every list in Redis has the followers of the table.
    abbrev pub IsInSync : World R M → Type 0
    IsInSync w = InSync uuids redis (λ a s. follows s a w.db.tables) w.redis

    pub world_mirror : Mirror world_users (world_subs cached_parts)
    unfolding world_users world_subs in_db in_redis user_repository subs_cacher
    world_mirror = record {
      follows = λ w a s. follows s a w.db.tables;
      IsSync = IsInSync;
      cached = λ a w w' l sync got.
          get_follows-right uuids redis _ a w.redis w'.redis l sync (ground arith);
      get_follows = λ a w sync. ((get_follows-InSync uuids redis _ a).at w.redis sync, λ b s. refl);
      stored = λ a w w' l got. get_subs-stored a w.db w'.db l (ground arith);
      get_subs = λ a w sync.
          let same = get_subs-tables a w.db in
          (
            subst (λ t. InSync uuids redis (λ b s. follows s b t) w.redis) (sym same) sync,
            λ b s. ap (follows s b) same,
          );
      set_follows = λ a l w sync right. set_follows-InSync uuids redis _ a l w.redis sync right;
    }

    -- A list that `GetSubs` returns has exactly the followers that the table has, from Redis or not,
    -- whatever fails on the way and whenever the request ends, and the lists in Redis stay in sync: for
    -- lists that are in sync before, and a Redis whose sets work as documented.
    pub user_repo_wrapper-follows :
        (a : Uuid) (w w' : World R M) (l : List Uuid)
        → IsInSync w
        → (user_repo_wrapper (world_app cached_parts)).get_subs a w ≡ (ok l, w')
        → ((s : Uuid) → elem s l ≡ follows s a w.db.tables) × IsInSync w'
    unfolding world_mirror user_cache_wrapper
    user_repo_wrapper-follows a w w' l sync got =
        get_subs-follows_table world_mirror parts.request_ends a w w' l sync got
