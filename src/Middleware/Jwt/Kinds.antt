-- ===== src/Middleware/Jwt/Kinds.antt =====
-- What passes the two checks of internal/middleware/jwtMiddleware.go.
use blog_go.Prelude.{
  Text, ◌≡◌, ◌≢◌, refl, sym, true, Option, none, some, inl, inr, Bool-cases, arith, String,
}
use text.Mathlib.TextEquality.{eq_iff}
use blog_go.Errs.{is, err_token_expired}
use blog_go.Action.{ok}
use blog_go.Action.Laws.{Result-cases}
use blog_go.Models.{Uuid}
use blog_go.Services.{auth_type, refresh_type}
use blog_go.Middleware.Jwt.{
  Outcome, passed, ParsedToken, JwtLibrary, token_str, read_token, accept_access, accept_refresh,
  pass, pass_refresh,
}

module _ (lib : JwtLibrary) where
  -- The token of a header was parsed, and is valid and of one kind, for one subject.
  pub record Carries (kind : String) (header : Option Text) (user_id : Uuid) : Type 0 where
    pub text : Text
    pub token : Text
    pub parsed : ParsedToken
    pub present : header ≡ some text
    pub extracted : token_str text ≡ ok token
    pub accepted : lib.parse_with_claims token ≡ ok parsed
    pub valid : parsed.valid ≡ true
    pub of_kind : parsed.claims.token_type ≡ kind
    pub subject : lib.parse_uuid parsed.claims.subject ≡ ok user_id

  read_token-passed :
      (next : ParsedToken → Outcome) (header : Option Text) (user_id : Uuid) (jti : Option Uuid)
      → read_token lib header next ≡ passed user_id jti
      → (text : Text) × (token : Text) × (parsed : ParsedToken) × (header ≡ some text)
        × (token_str text ≡ ok token)
        × (lib.parse_with_claims token ≡ ok parsed)
        × (next parsed ≡ passed user_id jti)
  unfolding read_token
  read_token-passed next none user_id jti h = absurd (ground arith)
  read_token-passed next (some text) user_id jti h = elim (Result-cases (token_str text)) [
    | inr (e, failed) ↦ absurd (ground arith)
    | inl (token, extracted) ↦ elim (Result-cases (lib.parse_with_claims token)) [
      | inl (parsed, accepted) ↦ (text, token, parsed, refl, extracted, accepted, ground arith)
      | inr (e, failed) ↦ elim (Bool-cases (is e err_token_expired)) [
        | inl late ↦ absurd (ground arith)
        | inr bad ↦ absurd (ground arith)
      ]
    ]
  ]

  accept_access-passed :
      (t : ParsedToken) (user_id : Uuid) (jti : Option Uuid)
      → accept_access lib t ≡ passed user_id jti
      → (t.valid ≡ true)
        × (t.claims.token_type ≡ auth_type)
        × (lib.parse_uuid t.claims.subject ≡ ok user_id)
        × (jti ≡ none)
  unfolding accept_access
  accept_access-passed t user_id jti h = elim (Result-cases (lib.parse_uuid t.claims.subject)) [
    | inl (id, parsed) ↦ ground (arith, eq_iff t.claims.token_type auth_type)
    | inr (e, failed) ↦ absurd (ground arith)
  ]

  accept_refresh-passed :
      (t : ParsedToken) (user_id : Uuid) (jti : Option Uuid)
      → accept_refresh lib t ≡ passed user_id jti
      → (t.valid ≡ true)
        × (t.claims.token_type ≡ refresh_type)
        × (lib.parse_uuid t.claims.subject ≡ ok user_id)
        × (id : Uuid) × (lib.parse_uuid t.claims.id ≡ ok id)
        × (jti ≡ some id)
  unfolding accept_refresh
  accept_refresh-passed t user_id jti h = elim (Result-cases (lib.parse_uuid t.claims.subject)) [
    | inr (e, failed) ↦ absurd (ground arith)
    | inl (id, parsed) ↦ elim (Result-cases (lib.parse_uuid t.claims.id)) [
      | inr (e, failed) ↦ absurd (ground arith)
      | inl (j, named) ↦
          let kind = eq_iff t.claims.token_type refresh_type in
          (
            ground (arith, kind),
            ground (arith, kind),
            ground (arith, kind),
            j,
            named,
            ground (arith, kind),
          )
    ]
  ]

  pub pass-passed :
      (header : Option Text) (user_id : Uuid) (jti : Option Uuid)
      → pass lib header ≡ passed user_id jti
      → Carries auth_type header user_id
  unfolding pass
  pass-passed header user_id jti h =
      let (text, token, parsed, present, extracted, accepted, rest) =
        read_token-passed (accept_access lib) header user_id jti h in
      let (valid, kind, subject, _) = accept_access-passed parsed user_id jti rest in
      record {
        text = text;
        token = token;
        parsed = parsed;
        present = present;
        extracted = extracted;
        accepted = accepted;
        valid = valid;
        of_kind = kind;
        subject = subject;
      }

  pub pass_refresh-passed :
      (header : Option Text) (user_id : Uuid) (jti : Option Uuid)
      → pass_refresh lib header ≡ passed user_id jti
      → Carries refresh_type header user_id
  unfolding pass_refresh
  pass_refresh-passed header user_id jti h =
      let (text, token, parsed, present, extracted, accepted, rest) =
        read_token-passed (accept_refresh lib) header user_id jti h in
      let (valid, kind, subject, _, _, _) = accept_refresh-passed parsed user_id jti rest in
      record {
        text = text;
        token = token;
        parsed = parsed;
        present = present;
        extracted = extracted;
        accepted = accepted;
        valid = valid;
        of_kind = kind;
        subject = subject;
      }

  types-differ : auth_type ≢ refresh_type
  types-differ e = cc ((eq_iff auth_type refresh_type).1 e)

  same_kind :
      (header : Option Text) (k k' : String) (u u' : Uuid)
      → Carries k header u
      → Carries k' header u'
      → k ≡ k'
  same_kind header k k' u u' a b = ground (
    arith, a.present, a.extracted, a.accepted, a.of_kind, b.present, b.extracted, b.accepted,
    b.of_kind,
  )

  -- What `Pass` lets through has a valid access token in its header, for the subject that it hands on,
  -- and never gets through `PassRefresh`.
  pub pass-passed_only :
      (header : Option Text) (user_id user_id' : Uuid) (jti jti' : Option Uuid)
      → pass lib header ≡ passed user_id jti
      → Carries auth_type header user_id × (pass_refresh lib header ≢ passed user_id' jti')
  pass-passed_only header user_id user_id' jti jti' h =
      let carried = pass-passed header user_id jti h in
      (
        carried,
        λ h'.
            types-differ
              (same_kind header _ _ _ _ carried (pass_refresh-passed header user_id' jti' h')),
      )

  -- What `PassRefresh` lets through has a valid refresh token in its header, for the subject that it
  -- hands on, and never gets through `Pass`.
  pub pass_refresh-passed_only :
      (header : Option Text) (user_id user_id' : Uuid) (jti jti' : Option Uuid)
      → pass_refresh lib header ≡ passed user_id jti
      → Carries refresh_type header user_id × (pass lib header ≢ passed user_id' jti')
  pass_refresh-passed_only header user_id user_id' jti jti' h =
      let carried = pass_refresh-passed header user_id jti h in
      (
        carried,
        λ h'.
            types-differ
              (sym (same_kind header _ _ _ _ carried (pass-passed header user_id' jti' h'))),
      )
