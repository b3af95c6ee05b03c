-- ===== src/Repositories/UserCache/Sync.antt =====
-- What `GetSubs` of internal/repositories/userCacheWrapper.go returns over a cache that is in sync.
use blog_go.Prelude.{◌≡◌, ap, sym, subst, ◌∙◌, Bool, Option, none, some, List, arith, elem}
use blog_go.Errs.{Error}
use blog_go.Action.{Result, ok, err, Action, continue, pure, swallow}
use blog_go.Action.Laws.{Ensures, Ensures-bind, Ensures-branch, Ensures-pure, Ensures-fail}
use blog_go.Models.{Uuid}
use blog_go.Cache.{SubsCacher}
use blog_go.Repositories.{UserRepository}
use blog_go.Repositories.UserCache.{await, try_to_cache_subs, get_subs}

-- The followers in the table, and the cache that mirrors them: `IsSync w` says that every cached list
-- has the followers of the table. Reads change neither, and a list that is written with the followers of
-- the table leaves the cache in sync, also where the write fails.
pub record Mirror {W : Type 0} (repo : UserRepository W) (cache : SubsCacher W) : Type 1 where
  pub follows : W → Uuid → Uuid → Bool
  pub IsSync : W → Type 0
  pub cached :
      (a : Uuid) (w w' : W) (l : List Uuid)
      → IsSync w
      → cache.get_follows a w ≡ (ok l, w')
      → (s : Uuid) → elem s l ≡ follows w a s
  pub get_follows :
      (a : Uuid) (w : W)
      → IsSync w
      → IsSync (cache.get_follows a w).1
        × ((b s : Uuid) → follows (cache.get_follows a w).1 b s ≡ follows w b s)
  pub stored :
      (a : Uuid) (w w' : W) (l : List Uuid)
      → repo.get_subs a w ≡ (ok l, w')
      → (s : Uuid) → elem s l ≡ follows w a s
  pub get_subs :
      (a : Uuid) (w : W)
      → IsSync w
      → IsSync (repo.get_subs a w).1
        × ((b s : Uuid) → follows (repo.get_subs a w).1 b s ≡ follows w b s)
  pub set_follows :
      (a : Uuid) (l : List Uuid) (w : W)
      → IsSync w
      → ((s : Uuid) → elem s l ≡ follows w a s)
      → IsSync (cache.set_follows a l w).1

module _ {W : Type 0} (m : Action W (Unit {0})) where
  swallowed :
      (r : Result (Unit {0})) (w v : W)
      → continue r (λ _. pure tt) (λ _. pure tt) w ≡ (ok tt, v)
      → w ≡ v
  swallowed (ok _) w v h = ground arith
  swallowed (err e) w v h = ground arith

  swallow-state : (w v : W) → swallow m w ≡ (ok tt, v) → (m w).1 ≡ v
  unfolding swallow
  swallow-state w v h = swallowed (m w).0 (m w).1 v h

module _ {W A : Type 0} {Q : A → W → Type 0} where
  -- A context that ends returns no value.
  await-Ensures :
      (ctx : Option Error) (fn : Action W A) (w : W) → Ensures Q (fn w) → Ensures Q (await ctx fn w)
  unfolding await
  await-Ensures none fn w h = h
  await-Ensures (some e) fn w h =
      Ensures-branch fn _ _ w (λ a u _. Ensures-fail e u) (λ x u _. Ensures-fail e u)

module _ {W : Type 0} {repo : UserRepository W} {cache : SubsCacher W} (m : Mirror repo cache)
    (ctx : Option Error) (a : Uuid) (w : W) where
  -- The list has the followers that the table had, and the cache is in sync.
  abbrev Told : List Uuid → W → Type 0
  Told l v = ((s : Uuid) → elem s l ≡ m.follows w a s) × m.IsSync v

  fill-Ensures :
      (u : W)
      → m.IsSync u
      → ((s : Uuid) → m.follows u a s ≡ m.follows w a s)
      → Ensures Told (try_to_cache_subs ctx repo cache a u)
  unfolding try_to_cache_subs
  fill-Ensures u sync same =
      Ensures-branch _ _ _ u
        (λ l v got. Ensures-pure l v (
          λ s. m.cached a u v l sync got s ∙ same s,
          subst m.IsSync (ap (λ r. r.1) got) (m.get_follows a u sync).0,
        ))
        λ e v missed.
          let (sync', same') = m.get_follows a u sync in
          let at : (cache.get_follows a u).1 ≡ v = ap (λ r. r.1) missed in
          let sync_v = subst m.IsSync at sync' in
          let follows_v =
            subst (λ (x : W). (b s : Uuid) → m.follows x b s ≡ m.follows u b s) at same' in
          Ensures-bind _ _ v λ l x read.
            let right = m.stored a v x l read in
            let (sync'', same'') = m.get_subs a v sync_v in
            let at_x : (repo.get_subs a v).1 ≡ x = ap (λ r. r.1) read in
            let sync_x = subst m.IsSync at_x sync'' in
            let follows_x =
              subst (λ (y : W). (b s : Uuid) → m.follows y b s ≡ m.follows v b s) at_x same'' in
            Ensures-bind _ _ x λ r y written. Ensures-pure l y (
              λ s. right s ∙ follows_v a s ∙ same s,
              subst m.IsSync (swallow-state (cache.set_follows a l) x y written)
                  (m.set_follows a l x sync_x (λ s. right s ∙ sym (follows_x a s))),
            )

  get_subs-Ensures : m.IsSync w → Ensures Told (get_subs ctx repo cache a w)
  unfolding get_subs
  get_subs-Ensures sync =
      Ensures-branch (cache.get_follows a) _ (λ _. await ctx (try_to_cache_subs ctx repo cache a)) w
        (λ k v read. Ensures-pure k v (
          m.cached a w v k sync read,
          subst m.IsSync (ap (λ r. r.1) read) (m.get_follows a w sync).0,
        ))
        λ e v missed.
          let (sync', same') = m.get_follows a w sync in
          let at : (cache.get_follows a w).1 ≡ v = ap (λ r. r.1) missed in
          await-Ensures ctx (try_to_cache_subs ctx repo cache a) v (
            fill-Ensures v (subst m.IsSync at sync')
              (subst (λ (x : W). (s : Uuid) → m.follows x a s ≡ m.follows w a s) at (same' a)))

  -- A list that `GetSubs` returns has exactly the followers that the table has, from the cache or not,
  -- whatever fails on the way and whenever the request ends, and the cache stays in sync: for a cache
  -- that is in sync before, and that mirrors the table as `Mirror` says.
  pub get_subs-follows_table :
      (w' : W) (l : List Uuid)
      → m.IsSync w
      → get_subs ctx repo cache a w ≡ (ok l, w')
      → ((s : Uuid) → elem s l ≡ m.follows w a s) × m.IsSync w'
  get_subs-follows_table w' l sync got = (get_subs-Ensures sync).at l w' got
