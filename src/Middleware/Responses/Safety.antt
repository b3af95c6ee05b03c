-- ===== src/Middleware/Responses/Safety.antt =====
-- What a client learns from an error: internal/middleware/errorMiddleware.go behind
-- internal/handles/errorProcessors.go.
use blog_go.Prelude.{String, ◌≡◌, refl, List, [], ◌∷◌, map, arith, All}
use blog_go.Errs.{
  Error, FieldError, validation_errors, wrap, is, is_syntax_error, as_unmarshal_type_error,
  as_validation_errors, as_http_error,
}
use blog_go.Middleware.Responses.{DetailBody, validation, json, detail, respond}
use blog_go.Handles.Errors.{
  process_user_service_errors, process_auth_service_errors, process_post_service_errors,
}

module _ (to_lower : String → String) where
  respond-wrap :
      (message : String) (e : Error) → respond to_lower (wrap message e) ≡ respond to_lower e
  unfolding respond is is_syntax_error as_unmarshal_type_error as_validation_errors as_http_error
  respond-wrap message e = refl

  -- Context that a layer adds with `%w` never changes the answer, behind each of the three error
  -- processors and behind none.
  pub respond-process-wrap :
      (message : String) (e : Error)
      → (respond to_lower (wrap message e) ≡ respond to_lower e)
        × (respond to_lower (process_user_service_errors (wrap message e))
            ≡ respond to_lower (process_user_service_errors e))
        × (respond to_lower (process_auth_service_errors (wrap message e))
            ≡ respond to_lower (process_auth_service_errors e))
        × (respond to_lower (process_post_service_errors (wrap message e))
            ≡ respond to_lower (process_post_service_errors e))
  unfolding process_user_service_errors process_auth_service_errors process_post_service_errors is
  respond-process-wrap message e = ground (arith, respond-wrap message e)

  details-code :
      (es : List FieldError) → All (λ (d : DetailBody). d.code ≡ "") (map (detail to_lower) es)
  unfolding detail
  details-code [] = tt
  details-code (e ∷ es) = (refl, details-code es)

  -- A validation error is answered with one detail for each failed field, and every `code` is empty.
  pub respond-validation_codes :
      (es : List FieldError)
      → (details : List DetailBody) × (respond to_lower (validation_errors es)
          ≡ json 400 (validation "validation_failed" details))
        × All (λ d. d.code ≡ "") details
  unfolding respond is_syntax_error as_unmarshal_type_error as_validation_errors
  respond-validation_codes es = (map (detail to_lower) es, refl, details-code es)
