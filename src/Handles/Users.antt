-- ===== src/Handles/Users.antt =====
-- internal/handles/userHandle.go
use text.Mathlib.Text.{◌==◌ as str_eq}
use blog_go.Prelude.{none, some, if◌then◌else◌}
use blog_go.Errs.{Error, http_error, other}
use blog_go.Action.{Result, ok, err, Action, pure, fail, lift, ◌>>=◌, map_err}
use blog_go.Models.{Uuid}
use blog_go.Repositories.{UserRepository}
use blog_go.Services.{UuidText}
use blog_go.Services.Users.{subscribe_to, unsubscribe_from}
use blog_go.Handles.Context.{
  Value, Request, Reply, Handler, uuid_value, other_value, reply, panics, nothing,
}
use blog_go.Handles.Errors.{process_user_service_errors}

abbrev err_missing_author_id : Error
err_missing_author_id =
    http_error
      (record { code = 400; error_tag = "missing_author_id"; message = "author_id is required" })

abbrev err_wrong_author_id_format : Error
err_wrong_author_id_format =
    http_error (record {
      code = 400;
      error_tag = "wrong_author_id_format";
      message = "author_id is invalid";
    })

author_id_of : UuidText → Request → Result Uuid
author_id_of uuids req =
    let text = req.param "author_id" in
    if str_eq text ""
    then err err_missing_author_id
    else elim (uuids.parse text) [ err e ↦ err err_wrong_author_id_format | ok id ↦ ok id ]

module _ {W : Type 0} (uuids : UuidText) where
  -- The common body of the two methods, by the method of the service. The type of the value in the
  -- context is asserted at the call of the service.
  unfoldable pub call_service : (Uuid → Uuid → Action W (Unit {0})) → Value → Uuid → Action W Reply
  call_service service (uuid_value user_id) author_id =
      map_err process_user_service_errors (service user_id author_id) >>= λ _.
      pure (reply 200 nothing)
  call_service service other_value author_id = pure panics

  unfoldable pub with_author : (Uuid → Uuid → Action W (Unit {0})) → Handler W
  unfolding author_id_of call_service
  with_author service req = elim req.user_id [
    | none ↦ fail (other "user id was not found")
    | some value ↦ lift (author_id_of uuids req) >>= call_service service value
  ]

module _ {W : Type 0} (uuids : UuidText) (users : UserRepository W) where
  unfoldable pub subscribe_to_author : Handler W
  unfolding with_author
  subscribe_to_author = with_author uuids (subscribe_to users)

  unfoldable pub unsubscribe_from_author : Handler W
  unfolding with_author
  unsubscribe_from_author = with_author uuids (unsubscribe_from users)
