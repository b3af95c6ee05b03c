-- ===== src/Handles/Auth.antt =====
-- internal/handles/authHandler.go
pub mod Nameless
use blog_go.Action.{ok, Action, pure, lift, ◌>>=◌, ◌>>◌, map_err}
use blog_go.Models.{UserRegisterInfo, UserLoginInfo, TokenPair}
use blog_go.Models.Validators.{validated_login}
use blog_go.Repositories.{UserRepository, TokenRepository}
use blog_go.Services.{UuidText, Runtime}
use blog_go.Services.Users.{create_user}
use blog_go.Services.Auth.{authenticate_user, sign_jwt, rotate_jwt, logout_by_refresh}
use blog_go.Handles.Context.{
  Request, Reply, Handler, Binding, reply, token_pair, nothing, get_user_id, get_jti,
}
use blog_go.Handles.Errors.{process_user_service_errors, process_auth_service_errors}

module _ {W : Type 0} (uuids : UuidText) (rt : Runtime W) (users : UserRepository W)
    (tokens : TokenRepository W) (binding : Binding) where
  unfoldable pub register : Handler W
  register req = do
    info ← lift (binding.register_info req.body)
    user ← map_err process_user_service_errors (create_user rt users info)
    pair ← map_err process_auth_service_errors (sign_jwt uuids rt tokens user.id)
    pure (reply 201 (token_pair pair))

  abbrev bound_login : Request → Action W UserLoginInfo
  unfolding validated_login
  bound_login req = do info ← lift (binding.login_info req.body); lift (validated_login info)

  unfoldable pub login : Handler W
  unfolding bound_login
  login req = do
    info ← bound_login req
    user ← map_err process_auth_service_errors (authenticate_user rt users info)
    pair ← map_err process_auth_service_errors (sign_jwt uuids rt tokens user.id)
    pure (reply 200 (token_pair pair))

module _ {W : Type 0} (uuids : UuidText) (rt : Runtime W) (tokens : TokenRepository W) where
  unfoldable pub refresh : Handler W
  unfolding get_user_id get_jti
  refresh req = do
    user_id ← lift (get_user_id req)
    jti ← lift (get_jti req)
    pair ← map_err process_auth_service_errors (rotate_jwt uuids rt tokens jti user_id)
    pure (reply 200 (token_pair pair))

  unfoldable pub logout : Handler W
  unfolding get_jti
  logout req = do
    jti ← lift (get_jti req)
    map_err process_auth_service_errors (logout_by_refresh uuids rt tokens jti)
    pure (reply 204 nothing)
