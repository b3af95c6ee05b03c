-- ===== src/Handles/Errors.antt =====
-- internal/handles/errorProcessors.go: the answers of the services' errors.
use blog_go.Prelude.{if◌then◌else◌}
use blog_go.Errs.{
  Error, http_error, is, err_not_subscribed, err_user_not_found, err_already_subscribed,
  err_user_already_exists, err_invalid_credentials, err_token_banned, err_bad_payload,
  error_post_does_not_exist, error_post_was_deleted,
}

unfoldable pub process_user_service_errors : Error → Error
process_user_service_errors e =
    if is e err_not_subscribed
    then http_error
        (record { code = 400; error_tag = "not_subscribed"; message = "User is not subscribed" })
    else if is e err_user_not_found
    then http_error (record {
      code = 404;
      error_tag = "user_not_found";
      message = "User with such credentials does not exist";
    })
    else if is e err_already_subscribed
    then http_error (record {
      code = 409;
      error_tag = "user_already_subscribed";
      message = "User is already subscribed";
    })
    else if is e err_user_already_exists
    then http_error (record {
      code = 409;
      error_tag = "user_already_exists";
      message = "User with such credentials already exists";
    })
    else e

unfoldable pub process_auth_service_errors : Error → Error
process_auth_service_errors e =
    if is e err_invalid_credentials
    then http_error
        (record { code = 400; error_tag = "invalid_credentials"; message = "Invalid Credentials" })
    else if is e err_token_banned
    then http_error (record {
      code = 403;
      error_tag = "token_banned";
      message = "Current token cannot be used";
    })
    else if is e err_bad_payload
    then http_error
        (record { code = 400; error_tag = "bad_payload"; message = "Payload could not be parsed" })
    else e

unfoldable pub process_post_service_errors : Error → Error
process_post_service_errors e =
    if is e error_post_does_not_exist
    then http_error
        (record { code = 404; error_tag = "post_does_not_exist"; message = "Post does not exist" })
    else if is e error_post_was_deleted
    then http_error
        (record { code = 409; error_tag = "post_was_deleted"; message = "Post cannot be deleted" })
    else e
