-- ===== src/Repositories/Users/Follows.antt =====
-- The follower table under the statements of internal/repositories/userRepository.go.
use blog_go.Prelude.{
  ◌≡◌, ◌⊎◌, refl, Bool, not, ◌&&◌, ◌||◌, List, [], ◌∷◌, map, arith, ◌==◌, elem, any, filter,
  if◌then◌else◌, length, any-append,
}
use blog_go.Errs.{
  Error, sentinel, not_found, pg_error, wrap, by_pair, is_unique_violation, err_already_exists,
}
use blog_go.Action.{ok, err, branch, map_err}
use blog_go.Models.{Uuid}
use blog_go.Database.{Db, Tables, SubscriberAuthor, served, refused, lost, pool_exec}
use blog_go.Database.Users
use blog_go.Database.Users.{is_pair, has_user}
use blog_go.Repositories.Users.{get_subs, subscribe_user_to, unsubscribe_user_from}

-- The pair is in the table.
abbrev pub follows : Uuid → Uuid → Tables → Bool
follows s a t = any (is_pair s a) t.subscriber_author

pub elem-subscribers :
    (s a : Uuid) (rows : List SubscriberAuthor)
    → elem s (map (λ r. r.sub_id) (filter (λ r. r.auth_id == a) rows)) ≡ any (is_pair s a) rows
elem-subscribers s a [] = refl
elem-subscribers s a (r ∷ rows) = ground (arith, elem-subscribers s a rows)

any-filter_pair :
    (s a s' a' : Uuid) (rows : List SubscriberAuthor)
    → any (is_pair s a) (filter (λ r. not (is_pair s' a' r)) rows)
      ≡ (any (is_pair s a) rows && not (s == s' && a == a'))
any-filter_pair s a s' a' [] = refl
any-filter_pair s a s' a' (r ∷ rows) = ground (arith, any-filter_pair s a s' a' rows)

count-pair :
    (s a : Uuid) (rows : List SubscriberAuthor)
    → (length (filter (is_pair s a) rows) == 0) ≡ not (any (is_pair s a) rows)
count-pair s a [] = refl
count-pair s a (r ∷ rows) = ground (arith, count-pair s a rows)

module _ (db : Db) (answers : db.faults db.tick ≡ served) where
  -- The list of an author's subscribers has exactly those that the table has.
  pub get_subs-follows :
      (s a : Uuid)
      → (subs : List Uuid) × ((get_subs a db).0 ≡ ok subs)
        × (elem s subs ≡ follows s a db.tables)
        × ((get_subs a db).1.tables ≡ db.tables)
  unfolding get_subs map_err pool_exec Users.get_subscribers
  get_subs-follows s a = (
    map (λ r. r.sub_id) (filter (λ r. r.auth_id == a) db.tables.subscriber_author),
    ground arith,
    elem-subscribers s a db.tables.subscriber_author,
    ground arith,
  )

  -- A subscription succeeds exactly for a pair of two different stored users that is not in the table,
  -- and then adds exactly that pair; a repeated one fails as existing, one of a user to itself with the
  -- check's error, one with an unknown user with the foreign key's, and these change no pair. The
  -- database answers the call.
  pub subscribe_user_to-follows :
      (s a : Uuid)
      → let fine =
          not (s == a)
          && not (follows s a db.tables)
          && has_user s db.tables
          && has_user a db.tables in
        ((subscribe_user_to s a db).0 ≡ (
          if fine
          then ok tt
          else if s == a
          then err (pg_error "23514")
          else if follows s a db.tables
          then err (wrap "sub pair already exists" (sentinel err_already_exists))
          else err (pg_error "23503")))
        × ((s' a' : Uuid)
            → follows s' a' (subscribe_user_to s a db).1.tables
              ≡ (follows s' a' db.tables || (fine && s == s' && a == a')))
  unfolding subscribe_user_to map_err pool_exec Users.subscribe_user_to is_unique_violation
  subscribe_user_to-follows s a = (
    ground arith,
    λ s' a'. ground (
      arith,
      any-append (is_pair s' a') db.tables.subscriber_author
          (record { sub_id = s; auth_id = a } ∷ []),
    ),
  )

  -- An unsubscription of a pair that is there removes exactly that pair; of another it fails with the
  -- `NotFoundError` and changes no pair. The database answers the call.
  pub unsubscribe_user_from-follows :
      (s a : Uuid)
      → ((unsubscribe_user_from s a db).0 ≡ (
          if follows s a db.tables
          then ok tt
          else err (not_found "UnsubscribeUserFrom" (by_pair s a))))
        × ((s' a' : Uuid)
            → follows s' a' (unsubscribe_user_from s a db).1.tables
              ≡ (follows s' a' db.tables && not (s' == s && a' == a)))
  unfolding unsubscribe_user_from branch pool_exec Users.unsubscribe_user_from
  unsubscribe_user_from-follows s a = (
    ground (arith, count-pair s a db.tables.subscriber_author),
    λ s' a'. ground (
      arith,
      count-pair s a db.tables.subscriber_author,
      any-filter_pair s' a' s a db.tables.subscriber_author,
    ),
  )

-- A call that the database did not answer is reported as a missing pair, whatever the error was and
-- whether the pair is there or not.
pub unsubscribe_user_from-refused :
    (s a : Uuid) (db : Db) (e : Error)
    → (db.faults db.tick ≡ refused e) ⊎ (db.faults db.tick ≡ lost e)
    → (unsubscribe_user_from s a db).0 ≡ err (not_found "UnsubscribeUserFrom" (by_pair s a))
unfolding unsubscribe_user_from branch pool_exec Users.unsubscribe_user_from
unsubscribe_user_from-refused s a db e h = ground arith
