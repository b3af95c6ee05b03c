-- ===== src/Middleware/Responses.antt =====
-- internal/middleware/errorMiddleware.go: the response to the last error of a request.
pub mod Safety
use Prim.Native.Char.{Char, code}
use Prim.Native.String
use blog_go.Prelude.{
  ℕ, ◌+◌, String, Bool, true, false, ◌&&◌, Option, none, some, List, [], ◌∷◌, map, leb,
  if◌then◌else◌,
}
use text.Mathlib.Text.{◌==◌ as str_eq}
use blog_go.Errs.{
  Error, HttpErrorMessage, FieldError, is, is_syntax_error, as_unmarshal_type_error,
  as_validation_errors, as_http_error, eof, err_unexpected_eof, error_unauthorized,
  deadline_exceeded, canceled,
}

pub record DetailBody : Type 0 where
  pub field : String
  pub code : String
  pub message : String

-- `GeneralErrorMessage` and `ValidationErrorMessage`.
pub data Body : Type 0 where
  general : String → String → Body
  validation : String → List DetailBody → Body

pub data Response : Type 0 where
  json : ℕ → Body → Response
  -- the handler chain ends and nothing is written
  silent : Response

infixr 65 ◌+++◌
abbrev ◌+++◌ : String → String → String
s +++ t = String.◌++◌ s t

unfoldable pub message_for_tag : FieldError → String
message_for_tag e =
    if str_eq e.tag "required"
    then e.field +++ " is required"
    else if str_eq e.tag "email"
    then e.field +++ " must be a proper email address"
    else if str_eq e.tag "required_if_no_email"
    then e.field +++ " is required if no email was presented"
    else if str_eq e.tag "required_if_no_login"
    then e.field +++ " is required if no login was presented"
    else e.field +++ " failed validation on " +++ e.tag

-- `strings.ToLower` is a parameter: the rest of the file does not look into the text.
module _ (to_lower : String → String) where
  detail : FieldError → DetailBody
  unfolding message_for_tag
  detail e = record { field = to_lower e.field; code = ""; message = message_for_tag e }

  -- The cases of the `switch` from `io.EOF` on.
  respond_plain : Error → Response
  respond_plain e =
      if is e eof
      then json 400 (general "empty_body" "The request body must contain required fields")
      else if is e err_unexpected_eof
      then json 400 (general "malformed_json" "unexpected end of json input")
      else if is e error_unauthorized
      then json 401 (general "unauthorized" "You are not authorized to perform this operation")
      else if is e deadline_exceeded
      then json 504 (general "request_timeout" "The request took too long to process")
      else if is e canceled
      then silent
      else elim (as_http_error e) [
        | some h ↦ json h.code (general h.error_tag h.message)
        | none ↦ json 500 (general "internal_server_error" "Internal Server Error")
      ]

  respond_validation : Error → Response
  unfolding respond_plain detail
  respond_validation e = elim (as_validation_errors e) [
    | some es ↦ json 400 (validation "validation_failed" (map detail es))
    | none ↦ respond_plain e
  ]

  respond_type : Error → Response
  unfolding respond_validation
  respond_type e = elim (as_unmarshal_type_error e) [
    | some (field, type) ↦ json 400 (
        validation "wrong_type"
          (record { field = field; code = "wrong_type"; message = "expected type " +++ type } ∷ []))
    | none ↦ respond_validation e
  ]

  unfoldable pub respond : Error → Response
  unfolding respond_type
  respond e =
      if is_syntax_error e
      then json 400 (general "malformed_json" "Request body contains invalid JSON.")
      else respond_type e
