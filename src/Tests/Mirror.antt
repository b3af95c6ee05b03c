-- ===== src/Tests/Mirror.antt =====
-- `GetSubs` of internal/repositories/userCacheWrapper.go over a table of the user 1's followers and a
-- cache that is filled on demand.
use blog_go.Prelude.{◌≡◌, refl, ap, sym, false, ◌∙◌, Option, none, some, List, [], ◌∷◌, arith, elem}
use blog_go.Errs.{not_found, by_uuid}
use blog_go.Action.{Result, ok, err}
use blog_go.Models.{Uuid}
use blog_go.Cache.{SubsCacher}
use blog_go.Repositories.{UserRepository}
use blog_go.Repositories.UserCache.{get_subs, try_to_cache_subs, await}
use blog_go.Repositories.UserCache.Sync.{Mirror}
use blog_go.Tests.Fixtures.{actions, ann}

-- The table is fixed; the state is the one cached list.
abbrev World : Type 0
World = Option (List Uuid)

abbrev followers : List Uuid
followers = 2 ∷ 3 ∷ []

abbrev repository : UserRepository World
repository = record {
  find_user_by_id = λ id w. (ok ann, w);
  find_user_by_login = λ login w. (ok ann, w);
  find_user_by_login_or_email = λ login email w. (ok ann, w);
  add_user = λ u w. (ok tt, w);
  get_subs = λ a w. (ok followers, w);
  subscribe_user_to = λ s a w. (ok tt, w);
  unsubscribe_user_from = λ s a w. (ok tt, w);
}

abbrev read : Uuid → World → Result (List Uuid) × World
read a none = (err (not_found "GetFollows" (by_uuid a)), none)
read a (some l) = (ok l, some l)

abbrev cache : SubsCacher World
cache = record {
  subscribe_user_to = λ s a w. (ok tt, w);
  unsubscribe_user_from = λ s a w. (ok tt, w);
  follow_list_exists = λ a w. (ok false, w);
  set_follows = λ a l w. (ok tt, some l);
  get_follows = read;
}

abbrev Right : World → Type 0
Right none = Unit
Right (some l) = (s : Uuid) → elem s l ≡ elem s followers

read-Right : (a : Uuid) (w : World) → Right w → Right (read a w).1
read-Right a none h = h
read-Right a (some l) h = h

list_of_read :
    (a : Uuid) (w w' : World) (l : List Uuid)
    → Right w
    → read a w ≡ (ok l, w')
    → (s : Uuid) → elem s l ≡ elem s followers
list_of_read a none w' l h e s = absurd (ground arith)
list_of_read a (some k) w' l h e s = let same : k ≡ l = ground arith in sym (ap (elem s) same) ∙ h s

mirror : Mirror repository cache
mirror = record {
  follows = λ w a s. elem s followers;
  IsSync = Right;
  cached = list_of_read;
  get_follows = λ a w h. (read-Right a w h, λ b s. refl);
  stored = λ a w w' l e s. let same : followers ≡ l = ground arith in sym (ap (elem s) same);
  get_subs = λ a w h. (h, λ b s. refl);
  set_follows = λ a l w h right. right;
}

mirror_tests :
    (get_subs none repository cache 1 none ≡ (ok followers, some followers))
    × (get_subs none repository cache 1 (some followers) ≡ (ok followers, some followers))
unfolding actions get_subs try_to_cache_subs await
mirror_tests = (refl, refl)
