-- ===== src/Middleware/Jwt/Issued.antt =====
-- The tokens of internal/services/authService.go at the checks of
-- internal/middleware/jwtMiddleware.go.
use blog_go.Prelude.{Text, codes, ◌≡◌, true, Option, none, some, ◌++◌, arith}
use blog_go.Action.{ok}
use blog_go.Models.{Uuid, Time}
use blog_go.Services.{UuidText}
use blog_go.Services.Auth.{access_claims, refresh_claims}
use blog_go.Middleware.Jwt.{
  passed, unauthorized, JwtLibrary, trim_space, token_str, pass, pass_refresh,
}

-- A token that `jwt` verifies, without spaces at its ends, in a header of the Bearer scheme.
abbrev pub bearer : Text → Option Text
bearer token = some (codes "Bearer " ++ token)

module _ (uuids : UuidText) (lib : JwtLibrary) (same : lib.parse_uuid ≡ uuids.parse) where
  -- A token that the JWT library verifies to the access claims that were signed for a user gets that
  -- user through `Pass`, and gets no further than `PassRefresh`: for a token without spaces at its ends,
  -- sent with the Bearer scheme, where both sides read identifiers alike.
  pub pass-claims :
      (user_id : Uuid) (iat : Time) (token : Text)
      → trim_space token ≡ token
      → lib.parse_with_claims token
        ≡ ok (record { claims = access_claims uuids user_id iat; valid = true })
      → (pass lib (bearer token) ≡ passed user_id none)
        × (pass_refresh lib (bearer token) ≡ unauthorized)
  unfolding pass pass_refresh token_str access_claims
  pass-claims user_id iat token trimmed verified =
      ground (arith, same, uuids.parse-to_string user_id)

  -- The same for the refresh claims, which get the user and the token's identifier through
  -- `PassRefresh`, and no further than `Pass`.
  pub pass_refresh-claims :
      (user_id jti : Uuid) (iat : Time) (token : Text)
      → trim_space token ≡ token
      → lib.parse_with_claims token
        ≡ ok (record { claims = refresh_claims uuids user_id iat jti; valid = true })
      → (pass_refresh lib (bearer token) ≡ passed user_id (some jti))
        × (pass lib (bearer token) ≡ unauthorized)
  unfolding pass pass_refresh token_str refresh_claims
  pass_refresh-claims user_id jti iat token trimmed verified =
      ground (arith, same, uuids.parse-to_string user_id, uuids.parse-to_string jti)
