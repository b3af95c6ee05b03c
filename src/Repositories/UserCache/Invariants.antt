-- ===== src/Repositories/UserCache/Invariants.antt =====
-- internal/repositories/userCacheWrapper.go keeps what its repository and its cache keep.
use blog_go.Prelude.{Option, none, some}
use blog_go.Errs.{Error}
use blog_go.Action.{Action}
use blog_go.Action.Keeps.{Keeps, keeps_rules}
use blog_go.Models.{Uuid}
use blog_go.Cache.{SubsCacher}
use blog_go.Repositories.{UserRepository}
use blog_go.Repositories.Invariants.{UsersKeep, SubsCacheKeeps}
use blog_go.Repositories.UserCache.{
  await, try_to_cache_subs, follow_up, subscribe_user_to, unsubscribe_user_from, get_subs,
  user_cache_wrapper,
}

module _ {W A : Type 0} {P : W → Type 0} where
  await-Keeps : (ctx : Option Error) (fn : Action W A) → Keeps P fn → Keeps P (await ctx fn)
  unfolding await
  await-Keeps none fn keeps = keeps
  await-Keeps (some e) fn keeps = search keeps_rules

module _ {W : Type 0} {P : W → Type 0} (ctx : Option Error) where
  module _ {repo : UserRepository W} {cache : SubsCacher W} (users : UsersKeep P repo)
      (subs : SubsCacheKeeps P cache) where
    try_to_cache_subs-Keeps : (id : Uuid) → Keeps P (try_to_cache_subs ctx repo cache id)
    unfolding try_to_cache_subs
    try_to_cache_subs-Keeps id =
        search (keeps_rules, users.get_subs, subs.get_follows, subs.set_follows)

    follow_up-Keeps :
        (id : Uuid) (change : Action W (Unit {0}))
        → Keeps P change
        → Keeps P (follow_up ctx repo cache id change)
    unfolding follow_up
    follow_up-Keeps id change keeps =
        search (keeps_rules, subs.exists, await-Keeps, try_to_cache_subs-Keeps)

    subscribe-Keeps : (a b : Uuid) → Keeps P (subscribe_user_to ctx repo cache a b)
    unfolding subscribe_user_to
    subscribe-Keeps a b = search (keeps_rules, users.subscribe, subs.subscribe, follow_up-Keeps)

    unsubscribe-Keeps : (a b : Uuid) → Keeps P (unsubscribe_user_from ctx repo cache a b)
    unfolding unsubscribe_user_from
    unsubscribe-Keeps a b =
        search (keeps_rules, users.unsubscribe, subs.unsubscribe, follow_up-Keeps)

    get_subs-Keeps : (id : Uuid) → Keeps P (get_subs ctx repo cache id)
    unfolding get_subs
    get_subs-Keeps id = search (keeps_rules, subs.get_follows, await-Keeps, try_to_cache_subs-Keeps)

    pub user_cache_wrapper-UsersKeep : UsersKeep P (user_cache_wrapper ctx repo cache)
    unfolding user_cache_wrapper
    user_cache_wrapper-UsersKeep = record {
      find_user = users.find_user;
      add_user = users.add_user;
      get_subs = get_subs-Keeps;
      subscribe = subscribe-Keeps;
      unsubscribe = unsubscribe-Keeps;
    }
