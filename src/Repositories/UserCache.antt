-- ===== src/Repositories/UserCache.antt =====
-- internal/repositories/userCacheWrapper.go. A request has a context: `ctx` is the error of a context
-- that ends before the shared call does, and `none` for one that waits. The call goes on either way,
-- since it runs without the request's cancellation. Requests are looked at one after the other, so
-- `singleflight` runs each call itself.
pub mod Sync
pub mod Filling
pub mod Invariants
use blog_go.Prelude.{Option, none, some, List, if◌then◌else◌}
use blog_go.Errs.{Error}
use blog_go.Action.{Action, pure, fail, branch, ◌>>=◌, ◌>>◌, swallow}
use blog_go.Models.{Uuid}
use blog_go.Cache.{SubsCacher}
use blog_go.Repositories.{UserRepository}

module _ {W A : Type 0} where
  -- `res := group.DoChan(key, fn); select { case r := <-res: … case <-ctx.Done(): return ctx.Err() }`
  unfoldable pub await : Option Error → Action W A → Action W A
  unfolding branch
  await none fn = fn
  await (some e) fn = branch fn (λ _. fail e) (λ _. fail e)

module _ {W : Type 0} (ctx : Option Error) (repo : UserRepository W) (cache : SubsCacher W) where
  unfoldable pub try_to_cache_subs : Uuid → Action W (List Uuid)
  try_to_cache_subs auth_id =
      branch (cache.get_follows auth_id) pure
        λ _. repo.get_subs auth_id >>= λ subs. swallow (cache.set_follows auth_id subs) >> pure subs

  -- The end of both writes: the cached list follows if there is one, else it is filled.
  unfoldable pub follow_up : Uuid → Action W (Unit {0}) → Action W (Unit {0})
  unfolding try_to_cache_subs await
  follow_up auth_id change =
      branch (cache.follow_list_exists auth_id)
        (λ exists.
          if exists
          then swallow change
          else (await ctx (try_to_cache_subs auth_id) >>= λ _. pure tt))
        (λ _. pure tt)

  unfoldable pub subscribe_user_to : Uuid → Uuid → Action W (Unit {0})
  unfolding follow_up
  subscribe_user_to sub_id auth_id =
      repo.subscribe_user_to sub_id auth_id
      >> follow_up auth_id (cache.subscribe_user_to sub_id auth_id)

  unfoldable pub unsubscribe_user_from : Uuid → Uuid → Action W (Unit {0})
  unfolding follow_up
  unsubscribe_user_from sub_id auth_id =
      repo.unsubscribe_user_from sub_id auth_id
      >> follow_up auth_id (cache.unsubscribe_user_from sub_id auth_id)

  unfoldable pub get_subs : Uuid → Action W (List Uuid)
  unfolding try_to_cache_subs await
  get_subs user_id =
      branch (cache.get_follows user_id) pure (λ _. await ctx (try_to_cache_subs user_id))

  unfoldable pub user_cache_wrapper : UserRepository W
  user_cache_wrapper = record {
    find_user_by_id = repo.find_user_by_id;
    find_user_by_login = repo.find_user_by_login;
    find_user_by_login_or_email = repo.find_user_by_login_or_email;
    add_user = repo.add_user;
    get_subs = get_subs;
    subscribe_user_to = subscribe_user_to;
    unsubscribe_user_from = unsubscribe_user_from;
  }
