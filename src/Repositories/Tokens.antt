-- ===== src/Repositories/Tokens.antt =====
-- internal/repositories/tokenRepository.go
pub mod Revocation
pub mod Elsewhere
pub mod Others
use blog_go.Prelude.{Bool, not, ◌==◌}
use blog_go.Action.{Action, pure, ◌>>=◌, map_err}
use blog_go.Models.{Uuid, Time}
use blog_go.Database.{Db, pool_exec}
use blog_go.Database.Tokens
use blog_go.Repositories.{TokenRepository}
use blog_go.Repositories.Users.{exists_or}

unfoldable pub add_token : Uuid → Uuid → Time → Action Db (Unit {0})
add_token jti user_id expires_at = map_err (exists_or "token with such id already exists") (
    pool_exec
      (Tokens.add_refresh_token (record { jti = jti; user_id = user_id; expires_at = expires_at })))

unfoldable pub try_to_delete_token : Uuid → Action Db Bool
try_to_delete_token jti = do
  cnt ← pool_exec (Tokens.delete_refresh_token jti)
  pure (not (cnt == 0))

unfoldable pub delete_all_user_tokens : Uuid → Action Db (Unit {0})
delete_all_user_tokens user_id = pool_exec (Tokens.delete_all_refresh_tokens_by_user_id user_id)

unfoldable pub token_repository : TokenRepository Db
token_repository = record {
  add_token = add_token;
  try_to_delete_token = try_to_delete_token;
  delete_all_user_tokens = delete_all_user_tokens;
}
