-- ===== src/Tests/Middleware.antt =====
-- The checks of internal/middleware on small requests.
use blog_go.Prelude.{
  cut, codes, ◌≡◌, ◌≢◌, refl, String, true, none, some, List, [], ◌∷◌, ◌==◌, if◌then◌else◌,
}
use blog_go.Errs.{
  Error, FieldError, sentinel, other, wrap, validation_errors, err_token_expired, err_token_banned,
}
use blog_go.Action.{ok, err}
use blog_go.Services.Auth.{access_claims, refresh_claims}
use blog_go.Middleware.Jwt.{
  JwtLibrary, passed, aborted, unauthorized, pass, pass_refresh, token_str, trim_space,
}
use blog_go.Middleware.Jwt.Kinds.{Carries, pass-passed_only}
use blog_go.Middleware.Jwt.Issued.{bearer, pass-claims}
use blog_go.Services.{auth_type}
use blog_go.Tests.Fixtures.{uuid_text}

-- The token `a` is the access token of user 1, `r` a refresh token of it; another one has expired.
abbrev pub library : JwtLibrary
library = record {
  parse_with_claims = λ token. elim token [
    | c ∷ cs ↦
        if c == b'a'
        then ok (record { claims = access_claims uuid_text 1 5; valid = true })
        else if c == b'r'
        then ok (record { claims = refresh_claims uuid_text 1 5 7; valid = true })
        else err (wrap "token has invalid claims" (sentinel err_token_expired))
    | [] ↦ err (other "token is malformed")
  ];
  parse_uuid = uuid_text.parse;
}

unfoldable pub checks : Unit {0}
unfolding pass pass_refresh token_str trim_space cut access_claims refresh_claims
checks = tt

header_tests :
    (pass library (some (codes "bearer  a ")) ≡ passed 1 none)
    × (pass library (some (codes "Basic a")) ≡ unauthorized)
    × (pass library (some (codes "Bearer")) ≡ unauthorized)
    × (pass library (some (codes "Bearer x")) ≡ aborted 401 "expired")
    × (pass library none ≡ unauthorized)
unfolding checks blog_go.Errs.is
header_tests = (refl, refl, refl, refl, refl)

pass-passed_only_example :
    Carries library auth_type (bearer (codes "a")) 1
    × (pass_refresh library (bearer (codes "a")) ≢ passed 2 none)
unfolding checks
pass-passed_only_example = pass-passed_only library (bearer (codes "a")) 1 2 none none refl

pass-claims_example :
    (pass library (bearer (codes "a")) ≡ passed 1 none)
    × (pass_refresh library (bearer (codes "a")) ≡ unauthorized)
unfolding trim_space
pass-claims_example = pass-claims uuid_text library refl 1 5 (codes "a") refl refl

abbrev same : String → String
same s = s

abbrev banned : Error
banned = sentinel err_token_banned

abbrev missing_login : List FieldError
missing_login = record { field = "Login"; tag = "required" } ∷ []
