-- ===== src/Repositories/Users.antt =====
-- internal/repositories/userRepository.go
pub mod Follows
use blog_go.Prelude.{String, List, ◌==◌, if◌then◌else◌}
use blog_go.Errs.{
  Error, sentinel, not_found, wrap, by_uuid, by_text, by_pair, by_texts, err_no_rows,
  err_already_exists, is, is_unique_violation,
}
use blog_go.Action.{Action, pure, fail, branch, map_err}
use blog_go.Models.{Uuid}
use blog_go.Database.{Db, User, pool_exec}
use blog_go.Database.Users
use blog_go.Repositories.{UserRepository}

-- `ErrNoRows` becomes the `NotFoundError`, another error is wrapped.
found_or : Error → Error → Error
found_or missing e = if is e err_no_rows then missing else wrap "unexpected error" e

unfoldable pub find_user_by_id : Uuid → Action Db User
unfolding found_or
find_user_by_id id =
    map_err (found_or (not_found "FindUserById" (by_uuid id)))
      (pool_exec (Users.find_user_by_id id))

unfoldable pub find_user_by_login : String → Action Db User
unfolding found_or
find_user_by_login login =
    map_err (found_or (not_found "FindUserByLogin" (by_text login)))
      (pool_exec (Users.find_user_by_login login))

unfoldable pub find_user_by_login_or_email : String → String → Action Db User
unfolding found_or
find_user_by_login_or_email login email =
    map_err (found_or (not_found "FindUserById" (by_texts login email)))
      (pool_exec (Users.find_user_by_login_or_email login email))

-- A unique violation becomes `ErrAlreadyExists`.
abbrev pub exists_or : String → Error → Error
exists_or message e =
    if is_unique_violation e then wrap message (sentinel err_already_exists) else e

unfoldable pub add_user : User → Action Db (Unit {0})
add_user user =
    map_err (exists_or "user with such credentials already exists")
      (pool_exec (Users.add_user user))

unfoldable pub get_subs : Uuid → Action Db (List Uuid)
get_subs user_id = map_err (wrap "unexpected error") (pool_exec (Users.get_subscribers user_id))

unfoldable pub subscribe_user_to : Uuid → Uuid → Action Db (Unit {0})
subscribe_user_to sub_id auth_id =
    map_err (exists_or "sub pair already exists")
      (pool_exec (Users.subscribe_user_to sub_id auth_id))

-- With an error the count is 0, and the test on the count comes first.
unfoldable pub unsubscribe_user_from : Uuid → Uuid → Action Db (Unit {0})
unsubscribe_user_from sub_id auth_id =
    let missing = fail (not_found "UnsubscribeUserFrom" (by_pair sub_id auth_id)) in
    branch (pool_exec (Users.unsubscribe_user_from sub_id auth_id))
      (λ cnt. if cnt == 0 then missing else pure tt) (λ e. missing)

unfoldable pub user_repository : UserRepository Db
user_repository = record {
  find_user_by_id = find_user_by_id;
  find_user_by_login = find_user_by_login;
  find_user_by_login_or_email = find_user_by_login_or_email;
  add_user = add_user;
  get_subs = get_subs;
  subscribe_user_to = subscribe_user_to;
  unsubscribe_user_from = unsubscribe_user_from;
}
