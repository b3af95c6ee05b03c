-- ===== src/Repositories/UserCache/Filling.antt =====
-- A fill of the cache by internal/repositories/userCacheWrapper.go leaves it in sync, whatever fails.
use blog_go.Prelude.{sym, ◌∙◌, Option, none, some, arith}
use blog_go.Errs.{Error}
use blog_go.Action.{Result, ok, err, Action, continue, pure, fail, branch, ◌>>=◌, ◌>>◌, swallow}
use blog_go.Action.Keeps.{Keeps, Keeps-continue, Keeps-branch, Keeps-fail}
use blog_go.Models.{Uuid}
use blog_go.Cache.{SubsCacher}
use blog_go.Repositories.{UserRepository}
use blog_go.Repositories.UserCache.{await, try_to_cache_subs}
use blog_go.Repositories.UserCache.Sync.{Mirror}

module _ {W A : Type 0} {P : W → Type 0} where
  pub await-Keeps : (ctx : Option Error) (fn : Action W A) → Keeps P fn → Keeps P (await ctx fn)
  unfolding await
  await-Keeps none fn keeps = keeps
  await-Keeps (some e) fn keeps =
      Keeps-branch fn _ _ keeps (λ _ _ _. Keeps-fail e) (λ _ _ _. Keeps-fail e)

module _ {W A : Type 0} (P : W → Type 0) where
  -- A call whose error is forgotten, before a result.
  swallowed-Keeps :
      (m : Action W (Unit {0})) (a : A) (w : W) → P (m w).1 → P ((swallow m >> pure a) w).1
  unfolding swallow ◌>>=◌ branch
  swallowed-Keeps m a w h = forgotten (m w).0 (m w).1 h
    where
      forgotten :
          (r : Result (Unit {0})) (v : W)
          → P v
          → P
              (continue
                (continue r (λ _. pure tt) (λ _. pure tt) v).0
                (λ _. pure a)
                fail
                (continue r (λ _. pure tt) (λ _. pure tt) v).1).1
      forgotten (ok _) v k = k
      forgotten (err e) v k = k

module _ {W : Type 0} {repo : UserRepository W} {cache : SubsCacher W} (m : Mirror repo cache)
    (ctx : Option Error) (a : Uuid) where
  pub try_to_cache_subs-Keeps : Keeps m.IsSync (try_to_cache_subs ctx repo cache a)
  unfolding try_to_cache_subs branch ◌>>=◌
  try_to_cache_subs-Keeps = record {
    at = λ w sync.
        let v = (cache.get_follows a w).1 in
        let (sync_v, _) = m.get_follows a w sync in
        let x = (repo.get_subs a v).1 in
        let (sync_x, same) = m.get_subs a v sync_v in
        Keeps-continue m.IsSync (cache.get_follows a w).0 _ _ v (λ l _. sync_v)
          (λ e _.
            Keeps-continue m.IsSync (repo.get_subs a v).0 _ _ x
              (λ l read. swallowed-Keeps m.IsSync (cache.set_follows a l) l x (
                m.set_follows a l x sync_x
                  (λ s. m.stored a v x l (ground arith) s ∙ sym (same a s))))
              (λ e _. sync_x));
  }
