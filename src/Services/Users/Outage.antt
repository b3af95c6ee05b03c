-- ===== src/Services/Users/Outage.antt =====
-- `UnsubscribeFrom` of internal/services/userAccessService.go, as a client sees it, while the database
-- does not answer.
use blog_go.Prelude.{String, ◌≡◌, refl, ◌⊎◌, arith}
use blog_go.Errs.{
  Error, sentinel, wrap, is, as_http_error, is_syntax_error, as_unmarshal_type_error,
  as_validation_errors, err_not_subscribed,
}
use blog_go.Action.{err, map_err}
use blog_go.Models.{Uuid}
use blog_go.Database.{Db, refused, lost}
use blog_go.Repositories.Users.{user_repository}
use blog_go.Repositories.Users.Follows.{unsubscribe_user_from-refused}
use blog_go.Services.Users.{unsubscribe_from}
use blog_go.Handles.Errors.{process_user_service_errors}
use blog_go.Middleware.Responses.{json, general, respond}

-- Whenever the database refuses the statement or loses its answer, for any reason, the client of an
-- unsubscription is told with status 400 that it is not subscribed.
pub unsubscribe_from-outage :
    (to_lower : String → String) (who from : Uuid) (db : Db) (e : Error)
    → (db.faults db.tick ≡ refused e) ⊎ (db.faults db.tick ≡ lost e)
    → (x : Error) × ((unsubscribe_from user_repository who from db).0 ≡ err x)
      × (respond to_lower (process_user_service_errors x)
          ≡ json 400 (general "not_subscribed" "User is not subscribed"))
unfolding unsubscribe_from user_repository map_err process_user_service_errors respond is
    is_syntax_error as_unmarshal_type_error as_validation_errors as_http_error
unsubscribe_from-outage to_lower who from db e h = (
  wrap "user not subscribed" (sentinel err_not_subscribed),
  ground (arith, unsubscribe_user_from-refused who from db e h),
  refl,
)
