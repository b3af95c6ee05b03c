-- ===== src/Routes/Followers/Writes.antt =====
-- The subscriptions and their removals of the application in internal/routes/routes.go: what
-- internal/repositories/userCacheWrapper.go leaves in the table and in Redis.
use blog_go.Prelude.{
  ◌≡◌, refl, sym, ap, ◌∙◌, subst, Bool, true, false, not, ◌&&◌, ◌||◌, List, [], ◌∷◌, ◌==◌, Text,
  arith, if◌then◌else◌,
}
use blog_go.Action.{ok, Action, branch, swallow, pure, ◌>>=◌}
use blog_go.Action.Keeps.{Keeps-continue, Keeps-bind, Keeps-pure}
use blog_go.Models.{Uuid}
use blog_go.Database.{served}
use blog_go.Cache.Feed.{UuidCodes}
use blog_go.Cache.{SubsCacher}
use blog_go.Cache.Subs.{Sets, followers_key, follow_list_exists, subs_cacher}
use blog_go.Cache.Subs.Redis.{IsRedisSets, is_nil}
use blog_go.Cache.Subs.Lists.{InSync, exists-InSync}
use blog_go.Cache.Subs.Writes.{
  same-InSync, away-InSync, gone-InSync, AnswersTx, subscribe_user_to-InSync,
  unsubscribe_user_from-InSync,
}
use blog_go.Repositories.Users.{subscribe_user_to, unsubscribe_user_from}
use blog_go.Repositories.Users.Follows.{
  follows, subscribe_user_to-follows, unsubscribe_user_from-follows,
}
use blog_go.Repositories.UserCache
use blog_go.Repositories.UserCache.{user_cache_wrapper, follow_up, try_to_cache_subs, await}
use blog_go.Repositories.UserCache.Filling.{await-Keeps, try_to_cache_subs-Keeps}
use blog_go.Routes.{user_repo_wrapper}
use blog_go.Routes.World.{World, Parts, in_db, in_redis, world_users, world_subs, world_app}
use blog_go.Routes.Followers.{cached_parts, IsInSync, world_mirror}

nil_of : (ms : List Text) → is_nil ms ≡ true → ms ≡ []
nil_of [] h = refl
nil_of (m ∷ ms) h = absurd (ground arith)

module _ {R M : Type 0} (parts : Parts R M) (uuids : UuidCodes) (sets : Sets R)
    (redis : IsRedisSets sets) (answers : AnswersTx sets redis) where
  -- EXISTS is answered: there is a list where its set has members, and no list changes.
  looked :
      (a : Uuid) (r : R)
      → ((follow_list_exists uuids sets a r).0
          ≡ ok (not (is_nil (redis.members r (followers_key uuids a)))))
        × ((follow_list_exists uuids sets a r).1 ≡ (sets.exists (followers_key uuids a) r).1)
  unfolding follow_list_exists ◌>>=◌ branch
  looked a r =
      let key = followers_key uuids a in
      let (n, counted) = answers.exists_answers key r in
      let there = redis.exists_ok key r (sets.exists key r).1 n (ground arith) in
      (rw counted (ground (arith, there)), rw counted refl)

  module _ (s a : Uuid) (w : World R M) (f : Uuid → Uuid → Bool) where
    abbrev lists : R → List Text
    lists r = redis.members r (followers_key uuids a)

    abbrev after_exists : World R M
    after_exists = record w { redis = (follow_list_exists uuids sets a w.redis).1 }

    sync_exists : InSync uuids redis f w.redis → InSync uuids redis f after_exists.redis
    sync_exists sync =
        subst (InSync uuids redis f) (sym (looked a w.redis).1)
          ((exists-InSync uuids redis f (followers_key uuids a)).at w.redis sync)

    lists_exists : lists after_exists.redis ≡ lists w.redis
    lists_exists =
        ap lists (looked a w.redis).1
        ∙ redis.exists_keeps (followers_key uuids a) w.redis (followers_key uuids a)

    abbrev cache : SubsCacher (World R M)
    cache = world_subs (cached_parts parts uuids sets)

    abbrev Synced : World R M → Type 0
    Synced = IsInSync parts uuids sets redis

    -- A change of the list that keeps it right where it is there, and a world that is right where it is
    -- away.
    module _ (change : Action (World R M) (Unit {0}))
        (changed : is_nil (lists w.redis) ≡ false → Synced (change after_exists).1)
        (away : lists after_exists.redis ≡ [] → Synced after_exists) where
      change-Synced : is_nil (lists w.redis) ≡ false → Synced (swallow change after_exists).1
      unfolding swallow branch
      change-Synced there =
          Keeps-continue Synced (change after_exists).0 _ _ (change after_exists).1
            (λ _ _. changed there) (λ _ _. changed there)

      abbrev fill : Action (World R M) (Unit {0})
      fill =
          await parts.request_ends (try_to_cache_subs parts.request_ends world_users cache a)
          >>= λ _. pure tt

      fill-Synced : is_nil (lists w.redis) ≡ true → Synced (fill after_exists).1
      unfolding world_mirror
      fill-Synced empty =
          let fills =
            await-Keeps parts.request_ends _ (
              try_to_cache_subs-Keeps (world_mirror parts uuids sets redis) parts.request_ends a) in
          (Keeps-bind _ (λ _. pure tt) fills (λ _ _ _. Keeps-pure tt)).at after_exists
            (away (lists_exists ∙ nil_of (lists w.redis) empty))

      either-Synced :
          (flag : Bool)
          → flag ≡ not (is_nil (lists w.redis))
          → Synced ((if flag then swallow change else fill) after_exists).1
      either-Synced true there = change-Synced (ground arith)
      either-Synced false missing = fill-Synced (ground arith)

      -- The list changes with the table if it is there, and is filled from the table if not.
      follow_up-Synced : Synced (follow_up parts.request_ends world_users cache a change w).1
      unfolding follow_up branch world_subs in_redis subs_cacher
      follow_up-Synced =
          Keeps-continue Synced (follow_list_exists uuids sets a w.redis).0 _ _ after_exists
            (λ flag found. either-Synced flag (ground (arith, (looked a w.redis).0)))
            (λ e failed. absurd (ground (arith, (looked a w.redis).0)))

    module _ (sync : InSync uuids redis f w.redis) where
      subscribed-Synced :
          ((b t : Uuid) → follows t b w.db.tables ≡ (f b t || (a == b) && t == s))
          → Synced
              (follow_up parts.request_ends world_users cache a (cache.subscribe_user_to s a) w).1
      unfolding world_subs in_redis subs_cacher
      subscribed-Synced after =
          follow_up-Synced (cache.subscribe_user_to s a)
            (λ there.
              subscribe_user_to-InSync uuids answers s a after_exists.redis f _ (sync_exists sync)
                (ap is_nil lists_exists ∙ there) after)
            (λ empty.
              away-InSync uuids redis f _ s a after_exists.redis empty after (sync_exists sync))

      unsubscribed-Synced :
          ((b t : Uuid) → follows t b w.db.tables ≡ (f b t && not ((a == b) && t == s)))
          → Synced
              (follow_up parts.request_ends world_users cache a
                (cache.unsubscribe_user_from s a)
                w).1
      unfolding world_subs in_redis subs_cacher
      unsubscribed-Synced after =
          follow_up-Synced (cache.unsubscribe_user_from s a)
            (λ there.
              unsubscribe_user_from-InSync uuids answers s a after_exists.redis f _
                (sync_exists sync) after)
            (λ empty.
              gone-InSync uuids redis f _ s a after_exists.redis empty after (sync_exists sync))

  module _ (s a : Uuid) (w : World R M) (served_call : w.db.faults w.db.tick ≡ served)
      (sync : IsInSync parts uuids sets redis w) where
    user_repo_wrapper-subscribe_user_to :
        IsInSync parts uuids sets redis
          ((user_repo_wrapper (world_app (cached_parts parts uuids sets))).subscribe_user_to s a
            w).1
    unfolding world_users in_db user_cache_wrapper UserCache.subscribe_user_to ◌>>=◌ branch
    user_repo_wrapper-subscribe_user_to =
        let db' = (subscribe_user_to s a w.db).1 in
        let w1 : World R M = record w { db = db' } in
        let (result, effect) = subscribe_user_to-follows w.db served_call s a in
        Keeps-continue (IsInSync parts uuids sets redis) (subscribe_user_to s a w.db).0 _ _ w1
          (λ _ worked.
            subscribed-Synced s a w1 (λ b t. follows t b w.db.tables) sync
              (λ b t. ground (arith, effect t b)))
          (λ e failed.
            same-InSync uuids redis (λ b t. follows t b w.db.tables) _ w.redis
              (λ b t. ground (arith, effect t b)) sync)

    user_repo_wrapper-unsubscribe_user_from :
        IsInSync parts uuids sets redis
          ((user_repo_wrapper (world_app (cached_parts parts uuids sets))).unsubscribe_user_from s a
            w).1
    unfolding world_users in_db user_cache_wrapper UserCache.unsubscribe_user_from ◌>>=◌ branch
    user_repo_wrapper-unsubscribe_user_from =
        let db' = (unsubscribe_user_from s a w.db).1 in
        let w1 : World R M = record w { db = db' } in
        let (result, effect) = unsubscribe_user_from-follows w.db served_call s a in
        Keeps-continue (IsInSync parts uuids sets redis) (unsubscribe_user_from s a w.db).0 _ _ w1
          (λ _ worked.
            unsubscribed-Synced s a w1 (λ b t. follows t b w.db.tables) sync
              (λ b t. ground (arith, effect t b)))
          (λ e failed.
            same-InSync uuids redis (λ b t. follows t b w.db.tables) _ w.redis
              (λ b t. ground (arith, effect t b)) sync)

    -- A subscription or its removal through the application leaves every list in Redis with the followers
    -- of the table, whether it succeeds or not, whether the list was there or is filled, whatever fails
    -- during the fill and whenever the request ends: for lists that are in sync before, a database that
    -- answers the statement, and a Redis that answers EXISTS and the transaction and whose sets work as
    -- documented.
    pub user_repo_wrapper-IsInSync :
        let users = user_repo_wrapper (world_app (cached_parts parts uuids sets)) in
        IsInSync parts uuids sets redis (users.subscribe_user_to s a w).1
        × IsInSync parts uuids sets redis (users.unsubscribe_user_from s a w).1
    user_repo_wrapper-IsInSync =
        (user_repo_wrapper-subscribe_user_to, user_repo_wrapper-unsubscribe_user_from)
