-- ===== src/Tests/Auth.antt =====
-- The tokens of internal/services/authService.go on a small database.
use blog_go.Prelude.{◌≡◌, ◌≢◌, refl, List, [], ◌∷◌, arith}
use blog_go.Errs.{sentinel, err_token_banned}
use blog_go.Action.{ok, err}
use blog_go.Models.{TokenPair}
use blog_go.Database.{Db}
use blog_go.Database.Tokens.{add_refresh_token, delete_refresh_token}
use blog_go.Repositories.Tokens.{token_repository, try_to_delete_token, add_token}
use blog_go.Services.Auth.{sign_jwt, rotate_jwt, logout_by_refresh}
use blog_go.Services.Auth.Rotation.{KeepsTables}
use blog_go.Services.Auth.History.{Call, login, refresh, logout, serve}
use blog_go.Tests.Fixtures.{actions, uuid_text, start_db, runtime}

tokens : Unit {0}
unfolding actions sign_jwt rotate_jwt logout_by_refresh token_repository try_to_delete_token
    add_token add_refresh_token delete_refresh_token serve
tokens = tt

abbrev pair : TokenPair
pair = record { access_token = "auth"; refresh_token = "refresh" }

abbrev after_rotation : Db
after_rotation = (rotate_jwt uuid_text runtime token_repository 7 1 start_db).1

abbrev after_logout : Db
after_logout = (logout_by_refresh uuid_text runtime token_repository 7 start_db).1

rotate_jwt_tests :
    ((rotate_jwt uuid_text runtime token_repository 7 1 start_db).0 ≡ ok pair)
    × ((rotate_jwt uuid_text runtime token_repository 7 1 after_rotation).0
        ≡ err (sentinel err_token_banned))
    × ((rotate_jwt uuid_text runtime token_repository 101 1 after_rotation).0 ≡ ok pair)
unfolding tokens
rotate_jwt_tests = (refl, refl, refl)

runtime-KeepsTables : KeepsTables runtime
runtime-KeepsTables = record { at_now = λ db. refl; at_new_uuid = λ db. refl }

fresh : (d : Db) → (runtime.new_uuid d).0 ≢ ok 7
fresh d = λ e. ground arith

abbrev calls : List Call
calls = login 1 ∷ refresh 101 2 ∷ logout 102 ∷ []
