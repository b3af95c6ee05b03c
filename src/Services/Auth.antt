-- ===== src/Services/Auth.antt =====
-- internal/services/authService.go
pub mod AllowList
pub mod Rotation
pub mod History
use text.Mathlib.Text.{◌==◌ as str_eq}
use blog_go.Prelude.{ℕ, ◌+◌, ◌*◌, String, Bool, true, false, not, ◌&&◌, if◌then◌else◌}
use blog_go.Errs.{
  Error, sentinel, wrap, is, err_not_found, err_invalid_credentials, err_token_banned,
  err_bad_payload,
}
use blog_go.Action.{Result, Action, pure, fail, lift, ◌>>=◌, ◌>>◌, map_err}
use blog_go.Models.{Uuid, Time, UserLoginInfo, TokenPair}
use blog_go.Database.{User}
use blog_go.Repositories.{UserRepository, TokenRepository}
use blog_go.Services.{
  UuidText, TokenClaims, Runtime, auth_type, refresh_type, issuer_name, numeric_date,
}

abbrev pub second : Time
second = 1_000_000_000

-- `15 * time.Minute`
abbrev pub access_lifetime : Time
access_lifetime = 15 * 60 * second

-- `30 * 24 * time.Hour`
abbrev pub refresh_lifetime : Time
refresh_lifetime = 30 * 24 * 3600 * second

find_error : Error → Error
find_error e =
    if is e err_not_found
    then sentinel err_invalid_credentials
    else wrap "find user by login or email failed" e

module _ (uuids : UuidText) where
  unfoldable pub access_claims : Uuid → Time → TokenClaims
  access_claims user_id iat = record {
    token_type = auth_type;
    issuer = issuer_name;
    subject = uuids.to_string user_id;
    issued_at = numeric_date iat;
    expires_at = numeric_date (iat + access_lifetime);
    id = "";
  }

  unfoldable pub refresh_claims : Uuid → Time → Uuid → TokenClaims
  refresh_claims user_id iat jti = record {
    token_type = refresh_type;
    issuer = issuer_name;
    subject = uuids.to_string user_id;
    issued_at = numeric_date iat;
    expires_at = numeric_date (iat + refresh_lifetime);
    id = uuids.to_string jti;
  }

module _ {W : Type 0} (rt : Runtime W) (users : UserRepository W) where
  unfoldable pub authenticate_user : UserLoginInfo → Action W User
  unfolding find_error
  authenticate_user info =
      if str_eq info.login "" && str_eq info.email "" then fail (sentinel err_bad_payload) else do
        user ← map_err find_error (users.find_user_by_login_or_email info.login info.email)
        match ←
            map_err (wrap "compare password failed")
              (lift (rt.compare_password_and_hash info.password user.password_hash))
        if match then pure user else fail (sentinel err_invalid_credentials)

module _ {W : Type 0} (uuids : UuidText) (rt : Runtime W) (tokens : TokenRepository W) where
  unfoldable pub sign_jwt : Uuid → Action W TokenPair
  unfolding access_claims refresh_claims
  sign_jwt user_id = do
    iat ← rt.now
    access ← map_err (wrap "sign jwt failed") (lift (rt.sign (access_claims uuids user_id iat)))
    jti ← rt.new_uuid
    refresh ←
        map_err (wrap "sign jwt failed") (lift (rt.sign (refresh_claims uuids user_id iat jti)))
    map_err (wrap "add token failed") (tokens.add_token jti user_id (iat + refresh_lifetime))
    pure (record { access_token = access; refresh_token = refresh })

  unfoldable pub rotate_jwt : Uuid → Uuid → Action W TokenPair
  unfolding sign_jwt
  rotate_jwt jti user_id = do
    is_success ← map_err (wrap "try to delete token failed") (tokens.try_to_delete_token jti)
    if is_success then sign_jwt user_id else fail (sentinel err_token_banned)

  unfoldable pub logout_by_refresh : Uuid → Action W (Unit {0})
  logout_by_refresh jti = do
    is_success ← map_err (wrap "try to delete token failed") (tokens.try_to_delete_token jti)
    if is_success then pure tt else fail (sentinel err_token_banned)
