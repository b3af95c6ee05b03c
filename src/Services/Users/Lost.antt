-- ===== src/Services/Users/Lost.antt =====
-- `SubscribeTo` of internal/services/userAccessService.go, as a client sees it, where the connection to the
-- database breaks: pgx reports that with `io.ErrUnexpectedEOF`.
use blog_go.Prelude.{String, ◌≡◌, refl, ◌⊎◌, arith, true, false, none, ◌==◌, ==→eq, inl, inr, ap}
use blog_go.Errs.{
  Error, Sentinel, sentinel, wrap, not_found, pg_error, http_error, syntax_error,
  unmarshal_type_error, validation_errors, is, code, is_unique_violation, as_pg_error,
  is_syntax_error, as_unmarshal_type_error, as_validation_errors, as_http_error, err_unexpected_eof,
  eof, err_already_exists, err_not_subscribed, err_user_not_found, err_already_subscribed,
  err_user_already_exists,
}
use blog_go.Errs
use blog_go.Action.{err, map_err}
use blog_go.Models.{Uuid}
use blog_go.Database.{Db, refused, lost, pool_exec}
use blog_go.Repositories.Users.{user_repository, subscribe_user_to}
use blog_go.Services.Users.{subscribe_to}
use blog_go.Handles.Errors.{process_user_service_errors}
use blog_go.Middleware.Responses.{json, general, respond}

-- A chain that ends in `io.ErrUnexpectedEOF` has no other error.
record Broken (e : Error) : Type 0 where
  only_eof : (s : Sentinel) → is e s ≡ (21 == code s)
  no_violation : as_pg_error e ≡ none
  no_syntax : is_syntax_error e ≡ false
  no_type : as_unmarshal_type_error e ≡ none
  no_fields : as_validation_errors e ≡ none

is-Broken : (e : Error) → is e err_unexpected_eof ≡ true → Broken e
unfolding is code as_pg_error is_syntax_error as_unmarshal_type_error as_validation_errors
is-Broken (sentinel s) h = record {
  only_eof = λ t. ap (λ n. n == code t) (==→eq (code s) 21 h);
  no_violation = refl;
  no_syntax = refl;
  no_type = refl;
  no_fields = refl;
}
is-Broken (wrap message e) h =
    let b = is-Broken e h in
    record {
      only_eof = b.only_eof;
      no_violation = b.no_violation;
      no_syntax = b.no_syntax;
      no_type = b.no_type;
      no_fields = b.no_fields;
    }
is-Broken (not_found resource subject) h = absurd (ground arith)
is-Broken (pg_error sqlstate) h = absurd (ground arith)
is-Broken (http_error x) h = absurd (ground arith)
is-Broken syntax_error h = absurd (ground arith)
is-Broken (unmarshal_type_error field type) h = absurd (ground arith)
is-Broken (validation_errors es) h = absurd (ground arith)
is-Broken (Errs.other message) h = absurd (ground arith)

subscribe_user_to-eq-err :
    (s a : Uuid) (db : Db) (e : Error)
    → Broken e
    → (db.faults db.tick ≡ refused e) ⊎ (db.faults db.tick ≡ lost e)
    → (subscribe_user_to s a db).0 ≡ err e
unfolding subscribe_user_to map_err pool_exec is_unique_violation
subscribe_user_to-eq-err s a db e b (inl h) = ground (arith, b.no_violation)
subscribe_user_to-eq-err s a db e b (inr h) = ground (arith, b.no_violation)

-- Whenever the statement fails with `io.ErrUnexpectedEOF`, as pgx does where the connection breaks, before
-- or after it ran, the client of a subscription, whose request has no body, is told with status 400 that
-- its JSON is malformed.
pub subscribe_to-unexpected_eof :
    (to_lower : String → String) (who whom : Uuid) (db : Db) (e : Error)
    → is e err_unexpected_eof ≡ true
    → (db.faults db.tick ≡ refused e) ⊎ (db.faults db.tick ≡ lost e)
    → (x : Error) × ((subscribe_to user_repository who whom db).0 ≡ err x)
      × (respond to_lower (process_user_service_errors x)
          ≡ json 400 (general "malformed_json" "unexpected end of json input"))
unfolding subscribe_to user_repository map_err process_user_service_errors respond is code
    is_syntax_error as_unmarshal_type_error as_validation_errors as_http_error
subscribe_to-unexpected_eof to_lower who whom db e broken h =
    let b = is-Broken e broken in
    (
      wrap "failed to subscribe to user" e,
      ground (arith, subscribe_user_to-eq-err who whom db e b h, b.only_eof err_already_exists),
      ground (
        arith,
        b.only_eof err_not_subscribed,
        b.only_eof err_user_not_found,
        b.only_eof err_already_subscribed,
        b.only_eof err_user_already_exists,
        b.only_eof eof,
        broken,
        b.no_syntax,
        b.no_type,
        b.no_fields,
      ),
    )
