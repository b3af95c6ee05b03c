-- ===== src/Routes/Followers/Stale.antt =====
-- `SubscribeUserTo` of internal/repositories/userCacheWrapper.go in the application where Redis refuses
-- the transaction, and where the database stops answering after the subscription.
use blog_go.Prelude.{
  ◌≡◌, ◌⊎◌, inl, inr, elem, refl, ap, ◌∙◌, Bool, true, false, not, ◌&&◌, Option, none, some, List,
  ◌==◌, Text, arith, ℕ, ◌+◌,
}
use blog_go.Errs.{Error, not_found, by_uuid, wrap}
use blog_go.Action.{ok, err, Action, branch, swallow, ◌>>=◌, map_err}
use blog_go.Action.Laws.{map_err-state}
use blog_go.Models.{Uuid}
use blog_go.Repositories.{UserRepository}
use blog_go.Database.{Db, Tables, served, refused, lost, pool_exec}
use blog_go.Database.Users.{has_user}
use blog_go.Database.Users
use blog_go.Cache.Feed.{UuidCodes}
use blog_go.Cache.{SubsCacher}
use blog_go.Cache.Subs.{Sets, followers_key, follow_list_exists, subs_cacher, get_follows}
use blog_go.Cache.Subs
use blog_go.Cache.Subs.Redis.{IsRedisSets, is_nil}
use blog_go.Cache.Subs.Lists.{InSync, get_follows-right, get_follows-answers, kept}
use blog_go.Repositories.Users.{subscribe_user_to, get_subs}
use blog_go.Repositories.Users.Follows.{follows, subscribe_user_to-follows}
use blog_go.Repositories.UserCache
use blog_go.Repositories.UserCache.{user_cache_wrapper, follow_up, try_to_cache_subs, await}
use blog_go.Routes.{user_repo_wrapper}
use blog_go.Routes.World.{World, Parts, in_db, in_redis, world_users, world_subs, world_app}
use blog_go.Routes.Followers.{cached_parts, IsInSync, get_subs-tables}

-- A pair that the table takes.
abbrev pub is_new_pair : Uuid → Uuid → Tables → Bool
is_new_pair s a t = not (s == a) && not (follows s a t) && has_user s t && has_user a t

-- Redis answers its two reads of sets.
pub record AnswersReads {R : Type 0} (sets : Sets R) : Type 0 where
  pub exists_answers : (k : Text) (r : R) → (n : ℕ) × ((sets.exists k r).0 ≡ ok n)
  pub smembers_answers : (k : Text) (r : R) → (ms : List Text) × ((sets.smembers k r).0 ≡ ok ms)

-- Redis refuses every transaction: it fails and changes no set.
pub record RefusesTx {R : Type 0} (sets : Sets R) (redis : IsRedisSets sets) : Type 0 where
  pub exec_fails :
      (cs : List Subs.SetCommand) (r : R) → (e : Error) × ((sets.exec_tx cs r).0 ≡ err e)
  pub exec_keeps :
      (cs : List Subs.SetCommand) (r : R) (key : Text)
      → redis.members (sets.exec_tx cs r).1 key ≡ redis.members r key

-- A subscription takes one statement.
next_statement :
    (s a : Uuid) (db : Db)
    → let after = (subscribe_user_to s a db).1 in
      (after.tick ≡ db.tick + 1) × (after.faults ≡ db.faults)
unfolding subscribe_user_to pool_exec
next_statement s a db =
    let same = map_err-state _ (pool_exec (Users.subscribe_user_to s a)) db in
    (ap (λ (d : Db). d.tick) same, ap (λ (d : Db). d.faults) same)

module _ (s a : Uuid) (db : Db) (served_call : db.faults db.tick ≡ served)
    (fresh : is_new_pair s a db.tables ≡ true) where
  -- The pair is stored, at the cost of one statement.
  stored_pair :
      ((subscribe_user_to s a db).0 ≡ ok tt)
      × (follows s a (subscribe_user_to s a db).1.tables ≡ true)
  stored_pair =
      let (result, effect) = subscribe_user_to-follows db served_call s a in
      (result ∙ rw fresh refl, effect s a ∙ ground arith)

get_subs-down :
    (a : Uuid) (db : Db) (e : Error)
    → (db.faults db.tick ≡ refused e) ⊎ (db.faults db.tick ≡ lost e)
    → (x : Error) × ((get_subs a db).0 ≡ err x)
unfolding get_subs map_err pool_exec
get_subs-down a db e (inl down) = (wrap "unexpected error" e, ground arith)
get_subs-down a db e (inr down) = (wrap "unexpected error" e, ground arith)

-- A shared call that fails is an error for every request, and leaves what it left.
await-err :
    {W A : Type 0} (ctx : Option Error) (m : Action W A) (w : W) (e : Error)
    → (m w).0 ≡ err e
    → (x : Error) × ((await ctx m w).0 ≡ err x) × ((await ctx m w).1 ≡ (m w).1)
unfolding await branch
await-err none m w e failed = (e, failed, refl)
await-err (some ended) m w e failed = (ended, rw failed refl, rw failed refl)

module _ {R : Type 0} (uuids : UuidCodes) (sets : Sets R) (redis : IsRedisSets sets)
    (reads : AnswersReads sets) (a : Uuid) (r : R) where
  -- The check for the list is right, and changes no list.
  looked :
      ((follow_list_exists uuids sets a r).0
        ≡ ok (not (is_nil (redis.members r (followers_key uuids a)))))
      × ((follow_list_exists uuids sets a r).1 ≡ (sets.exists (followers_key uuids a) r).1)
  unfolding follow_list_exists ◌>>=◌ branch
  looked =
      let key = followers_key uuids a in
      let (n, found) = reads.exists_answers key r in
      let there = redis.exists_ok key r (sets.exists key r).1 n (ground arith) in
      (rw found (ground (arith, there)), rw found refl)

  looked-members :
      (key : Text) → redis.members (follow_list_exists uuids sets a r).1 key ≡ redis.members r key
  looked-members key =
      ap (λ u. redis.members u key) looked.1 ∙ redis.exists_keeps (followers_key uuids a) r key

  get_follows-missing :
      is_nil (redis.members r (followers_key uuids a)) ≡ true
      → (e : Error) × ((get_follows uuids sets a r).0 ≡ err e)
  unfolding get_follows ◌>>=◌ branch map_err
  get_follows-missing away =
      let key = followers_key uuids a in
      let (n, found) = reads.exists_answers key r in
      let none_there = redis.exists_ok key r (sets.exists key r).1 n (ground arith) in
      (not_found "GetFollows" (by_uuid a), rw found (rw (none_there ∙ away) refl))

module _ {R M : Type 0} (parts : Parts R M) (uuids : UuidCodes) (sets : Sets R)
    (redis : IsRedisSets sets) (reads : AnswersReads sets) (s a : Uuid) (w : World R M)
    (served_call : w.db.faults w.db.tick ≡ served)
    (fresh : is_new_pair s a w.db.tables ≡ true) where
  abbrev users : UserRepository (World R M)
  users = user_repo_wrapper (world_app (cached_parts parts uuids sets))

  abbrev stored : Db
  stored = (subscribe_user_to s a w.db).1

  abbrev counted : R
  counted = (follow_list_exists uuids sets a w.redis).1

  abbrev left : R
  left = (Subs.subscribe_user_to uuids sets s a counted).1

  refused_tx :
      RefusesTx sets redis
      → ((e : Error) × ((Subs.subscribe_user_to uuids sets s a counted).0 ≡ err e))
        × ((key : Text) → redis.members left key ≡ redis.members counted key)
  unfolding Subs.subscribe_user_to
  refused_tx refuses = (refuses.exec_fails _ counted, refuses.exec_keeps _ counted)

  module _ (refuses : RefusesTx sets redis)
      (there : is_nil (redis.members w.redis (followers_key uuids a)) ≡ false) where
    subscribed : users.subscribe_user_to s a w ≡ (ok tt, record w { db = stored; redis = left })
    unfolding user_cache_wrapper UserCache.subscribe_user_to follow_up world_users world_subs in_db
        in_redis subs_cacher swallow ◌>>=◌ branch
    subscribed =
        let ((e, fails), _) = refused_tx refuses in
        rw (stored_pair s a w.db served_call fresh).0
          (rw (looked uuids sets redis reads a w.redis).0 (rw there (rw fails refl)))

    left-InSync :
        IsInSync parts uuids sets redis w → InSync uuids redis (λ b t. follows t b w.db.tables) left
    left-InSync sync =
        let (_, keeps) = refused_tx refuses in
        kept uuids redis _ w.redis left
          (λ key. keeps key ∙ looked-members uuids sets redis reads a w.redis key) sync

    left-there : is_nil (redis.members left (followers_key uuids a)) ≡ false
    left-there =
        let (_, keeps) = refused_tx refuses in
        let key = followers_key uuids a in
        ap is_nil (keeps key ∙ looked-members uuids sets redis reads a w.redis key) ∙ there

    -- A subscription that the table takes succeeds for its caller where Redis refuses the transaction, and
    -- the list that the next `GetSubs` returns has the followers of before, without the new one that the
    -- table has: for an author whose list is in Redis, lists that are in sync before, a database that
    -- answers the statement, and a Redis that answers the reads and whose sets work as documented.
    pub subscribe_user_to-get_subs_stale :
        IsInSync parts uuids sets redis w
        → let (result, w') = users.subscribe_user_to s a w in
          (result ≡ ok tt)
          × (follows s a w'.db.tables ≡ true)
          × (l : List Uuid) × ((users.get_subs a w').0 ≡ ok l)
          × ((t : Uuid) → elem t l ≡ follows t a w.db.tables)
          × (elem s l ≡ false)
    unfolding user_cache_wrapper UserCache.get_subs world_subs in_redis subs_cacher branch
    subscribe_user_to-get_subs_stale sync =
        let (l, got) =
          get_follows-answers uuids redis _ a left reads.exists_answers reads.smembers_answers
            (left-InSync sync) left-there in
        let before : (t : Uuid) → elem t l ≡ follows t a w.db.tables =
          get_follows-right uuids redis _ a left (get_follows uuids sets a left).1 l
            (left-InSync sync) (ground arith) in
        (
          ap (λ p. p.0) subscribed,
          ap (λ p. follows s a p.1.db.tables) subscribed
              ∙ (stored_pair s a w.db served_call fresh).1,
          l,
          ap (λ p. (users.get_subs a p.1).0) subscribed ∙ rw got refl,
          before,
          before s ∙ ground arith,
        )

  module _ (e : Error) (away : is_nil (redis.members w.redis (followers_key uuids a)) ≡ true)
      (down : (w.db.faults (w.db.tick + 1) ≡ refused e)
        ⊎ (w.db.faults (w.db.tick + 1) ≡ lost e)) where
    abbrev cache : SubsCacher (World R M)
    cache = world_subs (cached_parts parts uuids sets)

    abbrev looked_at : World R M
    looked_at = record w { db = stored; redis = counted }

    fill-fails :
        let fill = try_to_cache_subs parts.request_ends world_users cache a looked_at in
        (x : Error) × (fill.0 ≡ err x) × (fill.1.db.tables ≡ stored.tables)
    unfolding try_to_cache_subs world_users world_subs in_db in_redis subs_cacher ◌>>=◌ branch
    fill-fails =
        let key = followers_key uuids a in
        let (missed, absent) =
          get_follows-missing uuids sets redis reads a counted
            (ap is_nil (looked-members uuids sets redis reads a w.redis key) ∙ away) in
        let (tick, faults) = next_statement s a w.db in
        let next : stored.faults stored.tick ≡ w.db.faults (w.db.tick + 1) =
          ap (λ f. f stored.tick) faults ∙ ap w.db.faults tick in
        let (x, failed) = get_subs-down a stored e (rw next down) in
        let same = get_subs-tables a stored in
        (x, rw absent (rw failed refl), rw absent (rw failed same))

    -- A subscription that the table takes, and has from then on, fails for its caller where the database
    -- does not answer the next statement, or its answer is lost, whenever the request ends: for an author
    -- whose list is not in Redis, a database that answers the first statement, and a Redis that answers
    -- the reads and whose sets work as documented.
    pub subscribe_user_to-try_to_cache_subs_failed :
        let (result, w') = users.subscribe_user_to s a w in
        (x : Error) × (result ≡ err x) × (follows s a w'.db.tables ≡ true)
    unfolding user_cache_wrapper UserCache.subscribe_user_to follow_up world_users world_subs in_db
        in_redis subs_cacher ◌>>=◌ branch
    subscribe_user_to-try_to_cache_subs_failed =
        let (_, failed, tables) = fill-fails in
        let fill = try_to_cache_subs parts.request_ends world_users cache a in
        let (x, reported, after) = await-err parts.request_ends fill looked_at _ failed in
        let (done, pair) = stored_pair s a w.db served_call fresh in
        let there = (looked uuids sets redis reads a w.redis).0 in
        (
          x,
          rw done (rw there (rw away (rw reported refl))),
          rw done (
              rw there (
                rw away (
                  rw reported
                    (ap (λ u. follows s a u.db.tables) after ∙ ap (follows s a) tables ∙ pair)))),
        )
