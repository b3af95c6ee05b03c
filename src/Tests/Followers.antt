-- ===== src/Tests/Followers.antt =====
-- Reads and writes through the wrapper over a small database and a Redis that keeps its sets as a function.
use blog_go.Prelude.{
  ℕ, any, not, true, false, ◌∙◌, ap, filter, Bool-cases, text_eq→eq, ◌≡◌, refl, List, [], ◌∷◌, ◌++◌,
  arith, inl, inr, any-append, length, elem, ◌==◌, if◌then◌else◌, Text, text_eq, text_eq_self,
}
use blog_go.Errs.{Error}
use blog_go.Action.{Action, ok, err}
use blog_go.Models.{Uuid}
use blog_go.Database.{Tables, Fault, served, refused}
use blog_go.Database.Users.{get_subscribers}
use blog_go.Cache.Subs.{
  SetCommand, sadd, srem, Sets, subs_cacher, followers_key, get_follows, read_follows, set_follows,
  parse_all,
}
use blog_go.Cache.Subs.Redis.{IsRedisSets, is_nil}
use blog_go.Repositories.Users.{user_repository, get_subs}
use blog_go.Repositories.Users.Follows.{follows}
use blog_go.Repositories.UserCache
use blog_go.Repositories.UserCache.{user_cache_wrapper, try_to_cache_subs, await}
use blog_go.Routes.{user_repo_wrapper}
use blog_go.Routes.World.{World, world_app, world_users, world_subs, in_db, in_redis}
use blog_go.Cache.Subs.Writes.{AnswersTx, has_after}
use blog_go.Routes.Followers.Stale.{
  AnswersReads, RefusesTx, subscribe_user_to-get_subs_stale,
  subscribe_user_to-try_to_cache_subs_failed,
}
use blog_go.Routes.Followers.Writes.{user_repo_wrapper-IsInSync}
use blog_go.Routes.Followers.{cached_parts, IsInSync, user_repo_wrapper-follows}
use blog_go.Tests.Fixtures.{actions, ann, start_tables, db_with}
use blog_go.Tests.Routes.{parts_over, down}
use blog_go.Tests.Redis.{uuid_codes}
use blog_go.Repositories.{UserRepository}

abbrev Store : Type 0
Store = Text → List Text

abbrev run : SetCommand → Store → Store
run (sadd k x) r = λ key. if text_eq k key then x ∷ r key else r key
run (srem k x) r = λ key. if text_eq k key then filter (λ y. not (text_eq x y)) (r key) else r key

abbrev run_all : List SetCommand → Store → Store
run_all [] r = r
run_all (c ∷ cs) r = run_all cs (run c r)

abbrev sets_with : (List SetCommand → Action Store (Unit {0})) → Sets Store
sets_with exec = record {
  exists = λ k r. (ok (length (r k)), r);
  smembers = λ k r. (ok (r k), r);
  sadd_all = λ k ms r. (ok tt, λ key. if text_eq k key then r key ++ ms else r key);
  exec_tx = exec;
}

abbrev sets : Sets Store
sets = sets_with (λ cs r. (ok tt, run_all cs r))

length-is_nil : (ms : List Text) → (length ms == 0) ≡ is_nil ms
length-is_nil [] = refl
length-is_nil (m ∷ ms) = ground arith

abbrev sets_with-IsRedisSets :
    (exec : List SetCommand → Action Store (Unit {0})) → IsRedisSets (sets_with exec)
sets_with-IsRedisSets exec = record {
  members = λ r. r;
  exists_keeps = λ k r key. refl;
  exists_ok = λ k r r' n h. ground (arith, h, length-is_nil (r k));
  smembers_keeps = λ k r key. refl;
  smembers_ok = λ k r r' ms h. ground (arith, h);
  sadd_elsewhere = λ k ms r key h. rw h refl;
  sadd_there = λ k ms r. inr (λ m. rw (text_eq_self k) (any-append (text_eq m) (r k) ms));
}

sets-IsRedisSets : IsRedisSets sets
sets-IsRedisSets = sets_with-IsRedisSets (λ cs r. (ok tt, run_all cs r))

any-filter_others :
    (x m : Text) (ys : List Text)
    → any (text_eq m) (filter (λ y. not (text_eq x y)) ys)
      ≡ (if text_eq m x then false else any (text_eq m) ys)
any-filter_others x m [] = ground arith
any-filter_others x m (y ∷ ys) = elim (Bool-cases (text_eq m x)) [
  | inl same ↦
      let at = text_eq→eq m x same in
      ground (arith, any-filter_others x m ys, ap (λ z. text_eq z y) at)
  | inr other ↦ elim (Bool-cases (text_eq x y)) [
    | inl gone ↦
        let at = text_eq→eq x y gone in ground (arith, any-filter_others x m ys, ap (text_eq m) at)
    | inr kept ↦ ground (arith, any-filter_others x m ys)
  ]
]

has-run :
    (c : SetCommand) (cs : List SetCommand) (r : Store) (key m : Text)
    → has_after cs key m (any (text_eq m) (run c r key))
      ≡ has_after (c ∷ cs) key m (any (text_eq m) (r key))
has-run (sadd k x) cs r key m = elim (Bool-cases (text_eq k key)) [
  | inl at ↦ rw at (ap (has_after cs key m) (ground arith))
  | inr away ↦ rw away refl
]
has-run (srem k x) cs r key m = elim (Bool-cases (text_eq k key)) [
  | inl at ↦ rw at (ap (has_after cs key m) (any-filter_others x m (r key)))
  | inr away ↦ rw away refl
]

run_all-has :
    (cs : List SetCommand) (r : Store) (key m : Text)
    → any (text_eq m) (run_all cs r key) ≡ has_after cs key m (any (text_eq m) (r key))
run_all-has [] r key m = refl
run_all-has (c ∷ cs) r key m = run_all-has cs (run c r) key m ∙ has-run c cs r key m

sets-AnswersTx : AnswersTx sets sets-IsRedisSets
unfolding sets-IsRedisSets
sets-AnswersTx = record {
  exists_answers = λ k r. (length (r k), refl);
  exec_answers = λ cs r. refl;
  exec_ok = run_all-has;
}

abbrev world : World Store ℕ
world = record {
  db =
      db_with (record start_tables { subscriber_author = record { sub_id = 2; auth_id = 1 } ∷ [] })
        (λ n. served);
  redis = λ key. [];
  machine = 0;
}

abbrev users : UserRepository (World Store ℕ)
users = user_repo_wrapper (world_app (cached_parts (parts_over Store) uuid_codes sets))

requests : Unit {0}
unfolding actions UserCache.get_subs user_cache_wrapper try_to_cache_subs await world_users
    world_subs in_db in_redis user_repository get_subs get_subscribers subs_cacher followers_key
    get_follows read_follows set_follows parse_all
requests = tt

abbrev filled : World Store ℕ
filled = (users.get_subs 1 world).1

followers_tests :
    ((users.get_subs 1 world).0 ≡ ok (2 ∷ []))
    × (filled.redis (followers_key uuid_codes 1) ≡ (b'x' ∷ b'x' ∷ []) ∷ [])
    × ((users.get_subs 1 filled).0 ≡ ok (2 ∷ []))
unfolding requests
followers_tests = (refl, refl, refl)

user_repo_wrapper-follows_example :
    ((s : Uuid) → elem s (2 ∷ []) ≡ follows s 1 world.db.tables)
    × IsInSync (parts_over Store) uuid_codes sets sets-IsRedisSets filled
unfolding requests sets-IsRedisSets
user_repo_wrapper-follows_example =
    user_repo_wrapper-follows (parts_over Store) uuid_codes sets sets-IsRedisSets 1 world filled
      (2 ∷ []) (λ a. inl refl) refl

-- User 1 subscribes to 2, and 2 leaves 1.
user_repo_wrapper-IsInSync_example :
    IsInSync
      (parts_over Store)
      uuid_codes
      sets
      sets-IsRedisSets
      (users.subscribe_user_to 1 2 world).1
    × IsInSync
        (parts_over Store)
        uuid_codes
        sets
        sets-IsRedisSets
        (users.unsubscribe_user_from 1 2 world).1
unfolding requests sets-IsRedisSets
user_repo_wrapper-IsInSync_example =
    user_repo_wrapper-IsInSync (parts_over Store) uuid_codes sets sets-IsRedisSets sets-AnswersTx 1
      2 world refl (λ a. inl refl)

-- A Redis that refuses every transaction.
abbrev refusing : Sets Store
refusing = sets_with (λ cs r. (err down, r))

refusing-IsRedisSets : IsRedisSets refusing
refusing-IsRedisSets = sets_with-IsRedisSets (λ cs r. (err down, r))

refusing-AnswersReads : AnswersReads refusing
refusing-AnswersReads = record {
  exists_answers = λ k r. (length (r k), refl);
  smembers_answers = λ k r. (r k, refl);
}

refusing-RefusesTx : RefusesTx refusing refusing-IsRedisSets
unfolding refusing-IsRedisSets
refusing-RefusesTx = record { exec_fails = λ cs r. (down, refl); exec_keeps = λ cs r key. refl }

abbrev three_users : Tables
three_users = record world.db.tables {
  users = record ann { id = 3; login = "cid"; email = "c@x" } ∷ start_tables.users;
}

abbrev empty_lists : (ℕ → Fault) → World Store ℕ
empty_lists faults = record { db = db_with three_users faults; redis = λ key. []; machine = 0 }

abbrev refusing_users : UserRepository (World Store ℕ)
refusing_users = user_repo_wrapper (world_app (cached_parts (parts_over Store) uuid_codes refusing))

abbrev cached : World Store ℕ
cached = (refusing_users.get_subs 1 (empty_lists (λ n. served))).1

cached_sync : IsInSync (parts_over Store) uuid_codes refusing refusing-IsRedisSets cached
unfolding requests refusing-IsRedisSets
cached_sync =
    (user_repo_wrapper-follows (parts_over Store) uuid_codes refusing refusing-IsRedisSets 1
      (empty_lists (λ n. served)) cached (2 ∷ []) (λ a. inl refl) refl).1

-- User 3 subscribes to 1, whose list has 2.
subscribe_user_to-get_subs_stale_example :
    let (result, w') = refusing_users.subscribe_user_to 3 1 cached in
    (result ≡ ok tt)
    × (follows 3 1 w'.db.tables ≡ true)
    × (l : List Uuid) × ((refusing_users.get_subs 1 w').0 ≡ ok l)
    × ((t : Uuid) → elem t l ≡ follows t 1 cached.db.tables)
    × (elem 3 l ≡ false)
unfolding requests refusing-IsRedisSets
subscribe_user_to-get_subs_stale_example =
    subscribe_user_to-get_subs_stale (parts_over Store) uuid_codes refusing refusing-IsRedisSets
      refusing-AnswersReads 3 1 cached refl refl refusing-RefusesTx refl cached_sync

abbrev down_after : World Store ℕ
down_after = empty_lists (λ n. if n == 0 then served else refused down)

subscribe_user_to-try_to_cache_subs_failed_example :
    let (result, w') = refusing_users.subscribe_user_to 3 1 down_after in
    (x : Error) × (result ≡ err x) × (follows 3 1 w'.db.tables ≡ true)
unfolding requests refusing-IsRedisSets
subscribe_user_to-try_to_cache_subs_failed_example =
    subscribe_user_to-try_to_cache_subs_failed (parts_over Store) uuid_codes refusing
      refusing-IsRedisSets refusing-AnswersReads 3 1 down_after refl refl down refl (inl refl)
