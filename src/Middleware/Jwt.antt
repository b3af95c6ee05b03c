-- ===== src/Middleware/Jwt.antt =====
-- internal/middleware/jwtMiddleware.go. The header is bound by
-- gin, the token parsed by `jwt.ParseWithClaims` with the options of the file, the identifiers by
-- `uuid.Parse`: parameters.
pub mod Kinds
pub mod Issued
pub mod Outcomes
use text.Mathlib.Text.{◌==◌ as str_eq}
use blog_go.Prelude.{
  Text, codes, cut, ℕ, ◌+◌, String, Bool, true, false, not, ◌&&◌, ◌||◌, Option, none, some, List,
  [], ◌∷◌, leb, ◌==◌, if◌then◌else◌, elem,
}
use mathlib.Core.List.{reverse}
use blog_go.Errs.{Error, is, other, err_token_expired}
use blog_go.Action.{Result, ok, err}
use blog_go.Models.{Uuid}
use blog_go.Services.{TokenClaims, auth_type, refresh_type}

lower : ℕ → ℕ
lower c = if leb b'A' c && leb c b'Z' then c + 32 else c

-- `strings.EqualFold` with a text of ASCII letters none of which has another case variant.
equal_fold : Text → Text → Bool
unfolding lower
equal_fold [] [] = true
equal_fold (c ∷ cs) (d ∷ ds) = lower c == lower d && equal_fold cs ds
equal_fold _ _ = false

-- `unicode.IsSpace`
is_space : ℕ → Bool
is_space c =
    leb 9 c && leb c 13
    || leb 0x2000 c && leb c 0x200a
    || elem c (32 ∷ 0x85 ∷ 0xa0 ∷ 0x1680 ∷ 0x2028 ∷ 0x2029 ∷ 0x202f ∷ 0x205f ∷ 0x3000 ∷ [])

trim_left : Text → Text
unfolding is_space
trim_left [] = []
trim_left (c ∷ cs) = let rest = trim_left cs in if is_space c then rest else c ∷ cs

-- `strings.TrimSpace`
unfoldable pub trim_space : Text → Text
unfolding trim_left
trim_space cs = reverse (trim_left (reverse (trim_left cs)))

-- `authHeader.tokenStr`
unfoldable pub token_str : Text → Result Text
unfolding cut equal_fold trim_space
token_str header = elim (cut b' ' header) [
  | none ↦ err (other "invalid auth tokenStr")
  | some (scheme, token) ↦
      if equal_fold scheme (codes "Bearer")
      then ok (trim_space token)
      else err (other "invalid auth scheme")
]

-- What a handler leaves in the gin context.
pub data Outcome : Type 0 where
  -- `AbortWithStatusJSON(status, {"error": tag})`
  aborted : ℕ → String → Outcome
  -- the values set under `UserIDKey` and `RefreshJTIKey`, before `Next`
  passed : Uuid → Option Uuid → Outcome

-- `token.Valid` beside the claims.
pub record ParsedToken : Type 0 where
  pub claims : TokenClaims
  pub valid : Bool

pub record JwtLibrary : Type 0 where
  pub parse_with_claims : Text → Result ParsedToken
  pub parse_uuid : String → Result Uuid

abbrev pub unauthorized : Outcome
unauthorized = aborted 401 "unauthorized"

module _ (lib : JwtLibrary) where
  -- The common start: the header, its token, the parsed claims.
  read_token : Option Text → (ParsedToken → Outcome) → Outcome
  read_token none next = unauthorized
  read_token (some header) next = elim (token_str header) [
    | err e ↦ unauthorized
    | ok token ↦ elim (lib.parse_with_claims token) [
      | ok parsed ↦ next parsed
      | err e ↦ if is e err_token_expired then aborted 401 "expired" else unauthorized
    ]
  ]

  accept_refresh : ParsedToken → Outcome
  accept_refresh t =
      if not t.valid || not (str_eq t.claims.token_type refresh_type)
      then unauthorized
      else elim (lib.parse_uuid t.claims.subject) [
        | err e ↦ unauthorized
        | ok user_id ↦ elim (lib.parse_uuid t.claims.id) [
          | err e ↦ unauthorized
          | ok jti ↦ passed user_id (some jti)
        ]
      ]

  accept_access : ParsedToken → Outcome
  accept_access t =
      if not t.valid || not (str_eq t.claims.token_type auth_type)
      then unauthorized
      else elim (lib.parse_uuid t.claims.subject) [
        | err e ↦ unauthorized
        | ok user_id ↦ passed user_id none
      ]

  -- `PassRefresh` and `Pass`; no header is `none`.
  unfoldable pub pass_refresh : Option Text → Outcome
  unfolding read_token accept_refresh
  pass_refresh header = read_token header accept_refresh

  unfoldable pub pass : Option Text → Outcome
  unfolding read_token accept_access
  pass header = read_token header accept_access
