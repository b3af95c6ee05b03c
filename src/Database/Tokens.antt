-- ===== src/Database/Tokens.antt =====
-- internal/database/refresh_tokens.sql.go with the constraints of migration 00007.
use blog_go.Prelude.{ℕ, not, [], ◌∷◌, ◌++◌, ◌==◌, if◌then◌else◌, filter, any, length}
use blog_go.Errs.{pg_error}
use blog_go.Action.{ok, err}
use blog_go.Models.{Uuid}
use blog_go.Database.{AllowedRefreshToken, Query, to_micros}
use blog_go.Database.Users.{has_user}

unfoldable pub add_refresh_token : AllowedRefreshToken → Query (Unit {0})
add_refresh_token r stamp t =
    if any (λ s. s.jti == r.jti) t.allowed_refresh_tokens
    then (err (pg_error "23505"), t)
    else if has_user r.user_id t
    then (
      ok tt,
      record t {
        allowed_refresh_tokens =
            t.allowed_refresh_tokens ++ record r { expires_at = to_micros r.expires_at } ∷ [];
      },
    )
    else (err (pg_error "23503"), t)

unfoldable pub delete_all_refresh_tokens_by_user_id : Uuid → Query (Unit {0})
delete_all_refresh_tokens_by_user_id user_id stamp t = (
  ok tt,
  record t {
    allowed_refresh_tokens = filter (λ s. not (s.user_id == user_id)) t.allowed_refresh_tokens;
  },
)

unfoldable pub delete_refresh_token : Uuid → Query ℕ
delete_refresh_token jti stamp t = (
  ok (length (filter (λ s. s.jti == jti) t.allowed_refresh_tokens)),
  record t { allowed_refresh_tokens = filter (λ s. not (s.jti == jti)) t.allowed_refresh_tokens },
)
