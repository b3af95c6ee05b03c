-- ===== src/Tests/Users.antt =====
-- Subscriptions through internal/repositories/userRepository.go on a small database.
use blog_go.Prelude.{
  String, true, arith, ◌≡◌, refl, not, ◌&&◌, ◌||◌, inl, [], ◌∷◌, ◌==◌, if◌then◌else◌,
}
use blog_go.Errs.{
  is, err_user_already_exists, Error, sentinel, wrap, other, pg_error, err_already_exists,
  err_unexpected_eof,
}
use blog_go.Action.{ok, err}
use blog_go.Models.{Uuid}
use blog_go.Database.{User, Db, refused}
use blog_go.Database.Users
use blog_go.Database.Users.{has_user}
use blog_go.Repositories.Users.{
  add_user, find_user_by_login_or_email, get_subs, subscribe_user_to, unsubscribe_user_from,
  user_repository,
}
use blog_go.Repositories.Users.Follows.{follows, subscribe_user_to-follows}
use blog_go.Repositories.Accounts.{IsSound}
use blog_go.Repositories.Accounts.Writes.{
  subscribes, adds_token, deletes_tokens, after_writes, after_writes-IsSound,
}
use blog_go.Services.Users.{subscribe_to, unsubscribe_from, create_user, get_user_by_login_or_email}
use blog_go.Services.Users.Registration.{create_user-authenticate_user}
use blog_go.Services.Auth.{authenticate_user}
use blog_go.Models.{UserRegisterInfo}
use text.Mathlib.TextEquality.{eq_iff}
use blog_go.Services.Users.Lost.{subscribe_to-unexpected_eof}
use blog_go.Services.Users.Outage.{unsubscribe_from-outage}
use blog_go.Handles.Errors.{process_user_service_errors}
use blog_go.Middleware.Responses.{json, general, respond}
use blog_go.Tests.Fixtures.{actions, runtime, start_tables, start_db, db_with, refusing_at}

subscriptions : Unit {0}
unfolding actions get_subs subscribe_user_to unsubscribe_user_from Users.subscribe_user_to
    Users.unsubscribe_user_from Users.get_subscribers
subscriptions = tt

abbrev followed : Db
followed = (subscribe_user_to 2 1 start_db).1

subscription_tests :
    ((get_subs 1 followed).0 ≡ ok (2 ∷ []))
    × ((unsubscribe_user_from 2 1 followed).0 ≡ ok tt)
    × ((subscribe_user_to 2 2 start_db).0 ≡ err (pg_error "23514"))
unfolding subscriptions
subscription_tests = (refl, refl, refl)

subscribe_user_to-follows_example :
    let fine =
      not (2 == 1)
      && not (follows 2 1 start_tables)
      && has_user 2 start_tables
      && has_user 1 start_tables in
    ((subscribe_user_to 2 1 start_db).0 ≡ (
      if fine
      then ok tt
      else if 2 == 1
      then err (pg_error "23514")
      else if follows 2 1 start_tables
      then err (wrap "sub pair already exists" (sentinel err_already_exists))
      else err (pg_error "23503")))
    × ((s a : Uuid)
        → follows s a (subscribe_user_to 2 1 start_db).1.tables
          ≡ (follows s a start_tables || (fine && 2 == s && 1 == a)))
subscribe_user_to-follows_example = subscribe_user_to-follows start_db refl 2 1

abbrev reset : Error
reset = other "connection reset"

unsubscribe_from-outage_example :
    (x : Error) × ((unsubscribe_from user_repository 2 1 (refusing_at followed.tables 0)).0 ≡ err x)
    × (respond (λ s. s) (process_user_service_errors x)
        ≡ json 400 (general "not_subscribed" "User is not subscribed"))
unfolding subscriptions
unsubscribe_from-outage_example =
    unsubscribe_from-outage (λ s. s) 2 1 (refusing_at followed.tables 0) reset (inl refl)

-- The connection breaks before the statement has run.
abbrev broken_db : Db
broken_db = db_with start_tables (λ n. refused (wrap "write failed" (sentinel err_unexpected_eof)))

subscribe_to-unexpected_eof_example :
    (x : Error) × ((subscribe_to user_repository 2 1 broken_db).0 ≡ err x)
    × (respond (λ s. s) (process_user_service_errors x)
        ≡ json 400 (general "malformed_json" "unexpected end of json input"))
unfolding is
subscribe_to-unexpected_eof_example =
    subscribe_to-unexpected_eof (λ s. s) 2 1 broken_db
      (wrap "write failed" (sentinel err_unexpected_eof)) refl (inl refl)

registration : Unit {0}
unfolding actions is create_user get_user_by_login_or_email authenticate_user user_repository
    add_user find_user_by_login_or_email Users.add_user Users.find_user_by_login_or_email
registration = tt

abbrev zed : UserRegisterInfo
zed = record { login = "zed"; email = "z@x"; password = "pw" }

abbrev registered : Db
registered = (create_user runtime user_repository zed start_db).1

abbrev zed_user : User
zed_user = record { id = 101; login = "zed"; email = "z@x"; password_hash = "pw" }

registration_tests :
    ((create_user runtime user_repository zed start_db).0 ≡ ok zed_user)
    × ((create_user runtime user_repository zed registered).0
        ≡ err (wrap "user with such credentials already exists" (sentinel err_user_already_exists)))
unfolding registration
registration_tests = (refl, refl)

matches :
    (hash : String) (d d' : Db)
    → runtime.create_hash "pw" d ≡ (ok hash, d')
    → runtime.compare_password_and_hash "pw" hash ≡ ok true
matches hash d d' h = ground (arith, eq_iff hash hash)

create_user-authenticate_user_example :
    (authenticate_user runtime user_repository
      (record { login = "zed"; email = "z@x"; password = "pw" })
      registered).0
    ≡ ok zed_user
unfolding registration
create_user-authenticate_user_example =
    create_user-authenticate_user runtime zed zed_user start_db registered refl matches refl refl
      refl

start_IsSound : IsSound start_tables
start_IsSound = record {
  users = (refl, (refl, tt));
  pairs = tt;
  ends = tt;
  others = tt;
  tokens = (refl, tt);
  owners = (refl, tt);
}

after_writes-IsSound_example :
    IsSound
      (after_writes (subscribes 2 1 ∷ adds_token 8 2 9 ∷ deletes_tokens 1 ∷ []) start_db).tables
after_writes-IsSound_example =
    after_writes-IsSound (subscribes 2 1 ∷ adds_token 8 2 9 ∷ deletes_tokens 1 ∷ []) start_db
      start_IsSound
