-- ===== src/Handles/Auth/Nameless.antt =====
-- A login that names nobody, in internal/handles/authHandler.go behind
-- internal/webModels/validators.go.
use text.Mathlib.Text.{◌==◌ as str_eq}
use blog_go.Prelude.{◌≡◌, ◌⊎◌, inl, inr, true, false, List, [], ◌∷◌, ◌&&◌, Bool-cases, arith}
use blog_go.Errs.{FieldError, validation_errors}
use blog_go.Action.{ok, err, pure, branch, ◌>>=◌, map_err}
use blog_go.Action.Laws.{>>=-ok, >>=-err}
use blog_go.Models.{UserLoginInfo}
use blog_go.Models.Validators.{login_validation, validated_login}
use blog_go.Repositories.{UserRepository, TokenRepository}
use blog_go.Services.{UuidText, Runtime}
use blog_go.Services.Auth.{authenticate_user, sign_jwt}
use blog_go.Handles.Context.{Request, Binding, reply, token_pair}
use blog_go.Handles.Auth.{login, bound_login}
use blog_go.Handles.Errors.{process_auth_service_errors}

abbrev pub IsNameless : UserLoginInfo → Type 0
IsNameless info = (str_eq info.email "" && str_eq info.login "") ≡ true

abbrev pub missing_names : List FieldError
missing_names =
    record { field = "Login"; tag = "required_if_no_email" }
    ∷ record { field = "Email"; tag = "required_if_no_login" }
    ∷ []

module _ {W : Type 0} (uuids : UuidText) (rt : Runtime W) (users : UserRepository W)
    (tokens : TokenRepository W) (binding : Binding) (req : Request) (w : W) where
  bound_login-cases :
      (info : UserLoginInfo)
      → binding.login_info req.body ≡ ok info
      → ((bound_login uuids rt users tokens binding req w
            ≡ (err (validation_errors missing_names), w))
          × IsNameless info)
        ⊎ ((bound_login uuids rt users tokens binding req w ≡ (ok info, w))
            × ((str_eq info.login "" && str_eq info.email "") ≡ false))
  unfolding bound_login validated_login login_validation ◌>>=◌ branch
  bound_login-cases info bound = elim (Bool-cases (str_eq info.email "" && str_eq info.login "")) [
    | inl empty ↦ inl (ground arith, empty)
    | inr named ↦ inr (ground arith, ground arith)
  ]

  -- A login with neither name fails with both rules and reaches no service; any other one is left to
  -- `AuthenticateUser`, whose own test for this never fires.
  pub login-cases :
      (info : UserLoginInfo)
      → binding.login_info req.body ≡ ok info
      → ((login uuids rt users tokens binding req w ≡ (err (validation_errors missing_names), w))
          × IsNameless info)
        ⊎ (((str_eq info.login "" && str_eq info.email "") ≡ false)
            × (login uuids rt users tokens binding req w
                ≡ (map_err process_auth_service_errors (authenticate_user rt users info) >>= λ user.
                      map_err process_auth_service_errors (sign_jwt uuids rt tokens user.id)
                      >>= λ pair. pure (reply 200 (token_pair pair)))
                    w))
  unfolding login
  login-cases info bound = elim (bound_login-cases info bound) [
    | inl (failed, empty) ↦ inl (>>=-err _ _ w w (validation_errors missing_names) failed, empty)
    | inr (passed, named) ↦ inr (named, >>=-ok _ _ w w info passed)
  ]
