-- ===== src/Errs.antt =====
-- internal/errs/errs.go, the sentinel errors of the services, and Go's error values: an error is a
-- sentinel, a typed error, or a `%w` wrapper of another, and `errors.Is` and `errors.As` walk the
-- chain of wrappers.
use blog_go.Prelude.{true, ℕ, String, Bool, false, Option, none, some, List, ◌==◌}
use text.Mathlib.Text.{◌==◌ as str_eq}

-- The sentinels that the code compares with, the foreign ones (`pgx`, `context`, `jwt`, `io`,
-- `resource`) last.
pub data Sentinel : Type 0 where
  err_not_found err_already_deleted err_already_exists err_unauthorized err_invalid_input : Sentinel
  err_not_subscribed err_user_not_found err_user_already_exists err_already_subscribed : Sentinel
  err_invalid_credentials err_token_banned err_bad_payload : Sentinel
  error_post_was_deleted error_post_does_not_exist error_unauthorized : Sentinel
  err_nothing_to_fetch : Sentinel
  err_no_rows canceled deadline_exceeded err_token_expired eof err_unexpected_eof
        err_partial_resource :
      Sentinel

-- Sentinels are compared as pointers; each has a number of its own.
unfoldable pub code : Sentinel → ℕ
code err_not_found = 0
code err_already_deleted = 1
code err_already_exists = 2
code err_unauthorized = 3
code err_invalid_input = 4
code err_not_subscribed = 5
code err_user_not_found = 6
code err_user_already_exists = 7
code err_already_subscribed = 8
code err_invalid_credentials = 9
code err_token_banned = 10
code err_bad_payload = 11
code error_post_was_deleted = 12
code error_post_does_not_exist = 13
code error_unauthorized = 14
code err_nothing_to_fetch = 15
code err_no_rows = 16
code canceled = 17
code deadline_exceeded = 18
code err_token_expired = 19
code eof = 20
code err_unexpected_eof = 21
code err_partial_resource = 22

-- `HttpErrorMessage` of internal/middleware/errorMiddleware.go.
pub record HttpErrorMessage : Type 0 where
  pub error_tag : String
  pub message : String
  pub code : ℕ

-- `validator.FieldError`: the field and the tag of the failed rule.
pub record FieldError : Type 0 where
  pub field : String
  pub tag : String

-- What the `ID` of a `NotFoundError` is printed from.
pub data Subject : Type 0 where
  by_uuid : ℕ → Subject
  by_text : String → Subject
  by_pair : ℕ → ℕ → Subject
  by_texts : String → String → Subject

pub data Error : Type 0 where
  sentinel : Sentinel → Error
  -- `NotFoundError`, by its resource and its id
  not_found : String → Subject → Error
  -- `pgconn.PgError`, by its SQLSTATE
  pg_error : String → Error
  http_error : HttpErrorMessage → Error
  syntax_error : Error
  -- `json.UnmarshalTypeError`, by its field and the name of the expected type
  unmarshal_type_error : String → String → Error
  validation_errors : List FieldError → Error
  -- any other error, by its text
  other : String → Error
  -- `fmt.Errorf("…: %w", err)`; the values that the text shows besides `err` are left out
  wrap : String → Error → Error

-- `errors.Is(err, target)` for a sentinel target; `NotFoundError.Is` answers for `ErrNotFound`.
unfoldable pub is : Error → Sentinel → Bool
unfolding code
is (sentinel s) target = code s == code target
is (not_found resource id) target = code target == code err_not_found
is (wrap message e) target = is e target
is (pg_error sqlstate) target = false
is (http_error h) target = false
is syntax_error target = false
is (unmarshal_type_error field type) target = false
is (validation_errors es) target = false
is (other message) target = false

-- `errors.AsType[*pgconn.PgError](err)`, down to the code.
unfoldable pub as_pg_error : Error → Option String
as_pg_error (pg_error sqlstate) = some sqlstate
as_pg_error (wrap message e) = as_pg_error e
as_pg_error (sentinel s) = none
as_pg_error (not_found resource id) = none
as_pg_error (http_error h) = none
as_pg_error syntax_error = none
as_pg_error (unmarshal_type_error field type) = none
as_pg_error (validation_errors es) = none
as_pg_error (other message) = none

-- `IsUniqueViolation` of internal/repositories/userRepository.go.
unfoldable pub is_unique_violation : Error → Bool
unfolding as_pg_error
is_unique_violation e = elim (as_pg_error e) [ none ↦ false | some c ↦ str_eq c "23505" ]

-- `errors.As` for the other types that are asked for: whether the chain has one, and its value.
unfoldable pub as_http_error : Error → Option HttpErrorMessage
as_http_error (http_error h) = some h
as_http_error (wrap message e) = as_http_error e
as_http_error _ = none

unfoldable pub is_syntax_error : Error → Bool
is_syntax_error syntax_error = true
is_syntax_error (wrap message e) = is_syntax_error e
is_syntax_error _ = false

unfoldable pub as_unmarshal_type_error : Error → Option (String × String)
as_unmarshal_type_error (unmarshal_type_error field type) = some (field, type)
as_unmarshal_type_error (wrap message e) = as_unmarshal_type_error e
as_unmarshal_type_error _ = none

unfoldable pub as_validation_errors : Error → Option (List FieldError)
as_validation_errors (validation_errors es) = some es
as_validation_errors (wrap message e) = as_validation_errors e
as_validation_errors _ = none
