-- ===== src/Middleware/Jwt/Outcomes.antt =====
-- The two ways out of the middlewares of internal/middleware/jwtMiddleware.go.
use text.Mathlib.Text.{◌==◌ as str_eq}
use blog_go.Prelude.{
  ◌≡◌, refl, ◌⊎◌, inl, inr, String, Text, not, ◌||◌, Option, none, some, Bool-cases, arith,
}
use blog_go.Errs.{is, err_token_expired}
use blog_go.Action.Laws.{Result-cases}
use blog_go.Models.{Uuid}
use blog_go.Services.{auth_type, refresh_type}
use blog_go.Middleware.Jwt.{
  Outcome, aborted, passed, ParsedToken, JwtLibrary, token_str, read_token, accept_access,
  accept_refresh, pass, pass_refresh,
}
use blog_go.Middleware.Jwt.Kinds.{Carries, pass-passed, pass_refresh-passed}

module _ (lib : JwtLibrary) where
  -- The request ends with status 401, or goes on.
  abbrev Decided : Outcome → Type 0
  Decided o =
      ((tag : String) × (o ≡ aborted 401 tag))
      ⊎ ((user_id : Uuid) × (jti : Option Uuid) × (o ≡ passed user_id jti))

  read_token-Decided :
      (next : ParsedToken → Outcome)
      → ((t : ParsedToken) → Decided (next t))
      → (header : Option Text) → Decided (read_token lib header next)
  unfolding read_token
  read_token-Decided next h none = inl ("unauthorized", refl)
  read_token-Decided next h (some text) = elim (Result-cases (token_str text)) [
    | inr (e, failed) ↦ inl ("unauthorized", ground arith)
    | inl (token, extracted) ↦ elim (Result-cases (lib.parse_with_claims token)) [
      | inl (parsed, accepted) ↦ elim (h parsed) [
        | inl (tag, out) ↦ inl (tag, ground arith)
        | inr (id, jti, out) ↦ inr (id, jti, ground arith)
      ]
      | inr (e, failed) ↦ elim (Bool-cases (is e err_token_expired)) [
        | inl late ↦ inl ("expired", ground arith)
        | inr bad ↦ inl ("unauthorized", ground arith)
      ]
    ]
  ]

  accept_access-Decided : (t : ParsedToken) → Decided (accept_access lib t)
  unfolding accept_access
  accept_access-Decided t =
      elim (Bool-cases (not t.valid || not (str_eq t.claims.token_type auth_type))) [
        | inl bad ↦ inl ("unauthorized", ground arith)
        | inr good ↦ elim (Result-cases (lib.parse_uuid t.claims.subject)) [
          | inl (id, parsed) ↦ inr (id, none, ground arith)
          | inr (e, failed) ↦ inl ("unauthorized", ground arith)
        ]
      ]

  accept_refresh-Decided : (t : ParsedToken) → Decided (accept_refresh lib t)
  unfolding accept_refresh
  accept_refresh-Decided t =
      elim (Bool-cases (not t.valid || not (str_eq t.claims.token_type refresh_type))) [
        | inl bad ↦ inl ("unauthorized", ground arith)
        | inr good ↦ elim (Result-cases (lib.parse_uuid t.claims.subject)) [
          | inr (e, failed) ↦ inl ("unauthorized", ground arith)
          | inl (id, parsed) ↦ elim (Result-cases (lib.parse_uuid t.claims.id)) [
            | inl (jti, named) ↦ inr (id, some jti, ground arith)
            | inr (e, failed) ↦ inl ("unauthorized", ground arith)
          ]
        ]
      ]

  pub pass-cases :
      (header : Option Text)
      → ((tag : String) × (pass lib header ≡ aborted 401 tag))
        ⊎ ((user_id : Uuid) × (jti : Option Uuid) × (pass lib header ≡ passed user_id jti)
            × Carries lib auth_type header user_id)
  unfolding pass
  pass-cases header = elim (read_token-Decided (accept_access lib) accept_access-Decided header) [
    | inl ended ↦ inl ended
    | inr (id, jti, out) ↦ inr (id, jti, out, pass-passed lib header id jti out)
  ]

  pub pass_refresh-cases :
      (header : Option Text)
      → ((tag : String) × (pass_refresh lib header ≡ aborted 401 tag))
        ⊎ ((user_id : Uuid) × (jti : Option Uuid) × (pass_refresh lib header ≡ passed user_id jti)
            × Carries lib refresh_type header user_id)
  unfolding pass_refresh
  pass_refresh-cases header =
      elim (read_token-Decided (accept_refresh lib) accept_refresh-Decided header) [
        | inl ended ↦ inl ended
        | inr (id, jti, out) ↦ inr (id, jti, out, pass_refresh-passed lib header id jti out)
      ]
