-- ===== src/Cache/Subs.antt =====
-- internal/cache/subsCacher.go. The client of Redis is a parameter, with the commands on sets that the
-- file uses.
pub mod Redis
pub mod Lists
pub mod Writes
use blog_go.Prelude.{
  ℕ, ◌≡◌, Bool, not, List, [], ◌∷◌, ◌++◌, map, ltb, ◌==◌, if◌then◌else◌, Text, codes,
}
use blog_go.Errs.{Error, not_found, wrap, by_uuid}
use blog_go.Action.{Result, ok, err, Action, pure, fail, lift, ◌>>=◌, map_err}
use blog_go.Models.{Uuid}
use blog_go.Cache.{SubsCacher}
use blog_go.Cache.Feed.{UuidCodes}

-- A command of a pipeline: its key and its member.
pub data SetCommand : Type 0 where
  sadd srem : Text → Text → SetCommand

pub record Sets (W : Type 0) : Type 0 where
  pub exists : Text → Action W ℕ
  pub smembers : Text → Action W (List Text)
  -- SADD with several members
  pub sadd_all : Text → List Text → Action W (Unit {0})
  -- `TxPipeline` and its `Exec`
  pub exec_tx : List SetCommand → Action W (Unit {0})

module _ (uuids : UuidCodes) where
  unfoldable pub followers_key : Uuid → Text
  followers_key user_id = codes "user:" ++ (uuids.to_text user_id ++ codes ":followers")

  unfoldable pub subscriptions_key : Uuid → Text
  subscriptions_key user_id = codes "user:" ++ (uuids.to_text user_id ++ codes ":subscriptions")

  -- The loop of `GetFollows`.
  unfoldable pub parse_all : List Text → Result (List Uuid)
  parse_all [] = ok []
  parse_all (text ∷ texts) =
      let rest = parse_all texts in
      elim (uuids.parse text) [
        | err e ↦ err (wrap "could not parse sub id" e)
        | ok id ↦ elim rest [ err e ↦ err e | ok ids ↦ ok (id ∷ ids) ]
      ]

module _ {W : Type 0} (uuids : UuidCodes) (sets : Sets W) where
  unfoldable pub follow_list_exists : Uuid → Action W Bool
  unfolding followers_key
  follow_list_exists auth_id = do
    exists ← sets.exists (followers_key uuids auth_id)
    pure (ltb 0 exists)

  unfoldable pub subscribe_user_to : Uuid → Uuid → Action W (Unit {0})
  unfolding followers_key subscriptions_key
  subscribe_user_to sub_id auth_id = sets.exec_tx (
      sadd (followers_key uuids auth_id) (uuids.to_text sub_id)
      ∷ sadd (subscriptions_key uuids sub_id) (uuids.to_text auth_id)
      ∷ [])

  unfoldable pub unsubscribe_user_from : Uuid → Uuid → Action W (Unit {0})
  unfolding followers_key subscriptions_key
  unsubscribe_user_from sub_id auth_id = sets.exec_tx (
      srem (followers_key uuids auth_id) (uuids.to_text sub_id)
      ∷ srem (subscriptions_key uuids sub_id) (uuids.to_text auth_id)
      ∷ [])

  unfoldable pub read_follows : Uuid → Action W (List Uuid)
  unfolding followers_key parse_all
  read_follows user_id = do
    members ←
        map_err (wrap "could not get subs from cache") (sets.smembers (followers_key uuids user_id))
    lift (parse_all uuids members)

  unfoldable pub get_follows : Uuid → Action W (List Uuid)
  unfolding followers_key read_follows
  get_follows user_id = do
    exists ←
        map_err (wrap "could not check subs key existence")
          (sets.exists (followers_key uuids user_id))
    if exists == 0 then fail (not_found "GetFollows" (by_uuid user_id)) else read_follows user_id

  unfoldable pub set_follows : Uuid → List Uuid → Action W (Unit {0})
  unfolding followers_key
  set_follows auth_id [] = pure tt
  set_follows auth_id (id ∷ ids) =
      sets.sadd_all (followers_key uuids auth_id) (map uuids.to_text (id ∷ ids))

  unfoldable pub subs_cacher : SubsCacher W
  unfolding subscribe_user_to unsubscribe_user_from follow_list_exists set_follows get_follows
  subs_cacher = record {
    subscribe_user_to = subscribe_user_to;
    unsubscribe_user_from = unsubscribe_user_from;
    follow_list_exists = follow_list_exists;
    set_follows = set_follows;
    get_follows = get_follows;
  }
