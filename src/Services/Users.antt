-- ===== src/Services/Users.antt =====
-- internal/services/userAccessService.go
pub mod Outage
pub mod Lost
pub mod Registration
pub mod Invariants
use blog_go.Prelude.{String, not, if◌then◌else◌}
use blog_go.Errs.{
  Error, sentinel, wrap, is, err_not_found, err_already_exists, err_not_subscribed,
  err_user_not_found, err_user_already_exists, err_already_subscribed,
}
use blog_go.Action.{Action, pure, fail, branch, ◌>>=◌, ◌>>◌, map_err}
use blog_go.Models.{Uuid, UserRegisterInfo}
use blog_go.Database.{User}
use blog_go.Repositories.{UserRepository}
use blog_go.Services.{Runtime}

not_found_error : Error → Error
not_found_error e = if is e err_not_found then sentinel err_user_not_found else e

already_exists : Error
already_exists = wrap "user with such credentials already exists" (sentinel err_user_already_exists)

-- Another request may have added the user since the look-up.
add_user_error : Error → Error
unfolding already_exists
add_user_error e =
    if is e err_already_exists then already_exists else wrap "failed to create user" e

subscribe_error : Error → Error
subscribe_error e =
    if is e err_already_exists
    then wrap "user already subscribed" (sentinel err_already_subscribed)
    else wrap "failed to subscribe to user" e

unsubscribe_error : Error → Error
unsubscribe_error e =
    if is e err_not_found
    then wrap "user not subscribed" (sentinel err_not_subscribed)
    else wrap "failed to unsubscribe from user" e

module _ {W : Type 0} (users : UserRepository W) where
  unfoldable pub get_user_by_login_or_email : String → String → Action W User
  unfolding not_found_error
  get_user_by_login_or_email login email =
      map_err not_found_error (users.find_user_by_login_or_email login email)

  unfoldable pub subscribe_to : Uuid → Uuid → Action W (Unit {0})
  unfolding subscribe_error
  subscribe_to who_id to_whom_id =
      map_err subscribe_error (users.subscribe_user_to who_id to_whom_id)

  unfoldable pub unsubscribe_from : Uuid → Uuid → Action W (Unit {0})
  unfolding unsubscribe_error
  unsubscribe_from who_id from_whom_id =
      map_err unsubscribe_error (users.unsubscribe_user_from who_id from_whom_id)

module _ {W : Type 0} (rt : Runtime W) (users : UserRepository W) where
  -- The rest of `CreateUser`, after the look-up found nobody.
  register : UserRegisterInfo → Action W User
  unfolding add_user_error
  register info = do
    hash ← map_err (wrap "failed to hash password") (rt.create_hash info.password)
    id ← rt.new_uuid
    let user : User = record {
      id = id;
      login = info.login;
      email = info.email;
      password_hash = hash;
    }
    map_err add_user_error (users.add_user user)
    pure user

  unfoldable pub create_user : UserRegisterInfo → Action W User
  unfolding get_user_by_login_or_email register already_exists
  create_user info =
      branch (get_user_by_login_or_email users info.login info.email) (λ _. fail already_exists)
        (λ e.
          if not (is e err_user_not_found)
          then fail (wrap "failed to check user existence" e)
          else register info)
