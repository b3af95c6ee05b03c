-- ===== src/Models/Validators.antt =====
-- internal/webModels/validators.go, and the `binding` tags of internal/webModels/pagination.go.
use text.Mathlib.Text.{◌==◌ as str_eq}
use blog_go.Prelude.{Bool, not, ◌&&◌, List, [], ◌∷◌, ◌==◌, if◌then◌else◌}
use blog_go.Errs.{FieldError, validation_errors}
use blog_go.Action.{Result, ok, err}
use blog_go.Models.{UserLoginInfo, PostPaginationCursor}

-- The rules that `sl.ReportError` names.
unfoldable pub login_validation : UserLoginInfo → List FieldError
login_validation info =
    if str_eq info.email "" && str_eq info.login ""
    then record { field = "Login"; tag = "required_if_no_email" }
      ∷ record { field = "Email"; tag = "required_if_no_login" }
      ∷ []
    else []

-- `validate.Struct` of a login, which has no other rules.
unfoldable pub validated_login : UserLoginInfo → Result UserLoginInfo
unfolding login_validation
validated_login info = elim (login_validation info) [
  | [] ↦ ok info
  | e ∷ es ↦ err (validation_errors (e ∷ es))
]

-- Both fields of a cursor are required: an identifier of zeros is none. The zero of `time.Time` is the
-- year 1, before every `Time`.
unfoldable pub has_required : PostPaginationCursor → Bool
has_required cursor = not (cursor.last_id == 0)
