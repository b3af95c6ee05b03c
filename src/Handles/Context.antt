-- ===== src/Handles/Context.antt =====
-- What a handler of internal/handles gets from gin and leaves there, with
-- internal/handles/contextValuesExtraction.go. A handler that records an error and returns is an
-- action that fails.
use blog_go.Prelude.{ℕ, String, Option, none, some}
use blog_go.Errs.{Error, other}
use blog_go.Action.{Result, ok, err, Action}
use blog_go.Models.{
  Uuid, TokenPair, UserRegisterInfo, UserLoginInfo, CreatePostRequest, Post, PostPaginationResponse,
}
use blog_go.Middleware.Responses.{Body}

-- A value in the gin context has any type.
pub data Value : Type 0 where
  uuid_value : Uuid → Value
  other_value : Value

pub record Request : Type 0 where
  -- `ctx.Get` of `UserIDKey` and of `RefreshJTIKey`
  pub user_id : Option Value
  pub refresh_jti : Option Value
  -- `ctx.Param`, the empty text for a parameter that is not there
  pub param : String → String
  pub query : String → Option String
  pub body : String

pub data Payload : Type 0 where
  token_pair : TokenPair → Payload
  one_post : Post → Payload
  page : PostPaginationResponse → Payload
  -- `gin.H{}`
  nothing : Payload
  -- no body
  empty : Payload
  -- `gin.H{"error": tag}`
  error_tag : String → Payload
  failure : Body → Payload

pub data Reply : Type 0 where
  -- `ctx.JSON`
  reply : ℕ → Payload → Reply
  -- `ctx.Error`, and `ctx.JSON` after it
  error_and_reply : Error → ℕ → Payload → Reply
  -- a type assertion that fails
  panics : Reply

abbrev pub Handler : Type 0 → Type 0
Handler W = Request → Action W Reply

-- JSON with the rules of the `binding` tags: gin's and the validator's part of `ShouldBindJSON`.
-- `UserLoginInfo` has no tags.
pub record Binding : Type 0 where
  pub register_info : String → Result UserRegisterInfo
  pub login_info : String → Result UserLoginInfo
  pub post_request : String → Result CreatePostRequest

unfoldable pub value_or : Error → Error → Option Value → Result Uuid
value_or missing bad none = err missing
value_or missing bad (some (uuid_value id)) = ok id
value_or missing bad (some other_value) = err bad

unfoldable pub get_user_id : Request → Result Uuid
unfolding value_or
get_user_id req =
    value_or (other "user id was not set by middleware") (other "user id was not a UUID")
      req.user_id

unfoldable pub get_jti : Request → Result Uuid
unfolding value_or
get_jti req =
    value_or (other "jti was not set by middleware") (other "jti was not a UUID") req.refresh_jti

-- `ctx.DefaultQuery`
abbrev pub default_query : Request → String → String → String
default_query req name default = elim (req.query name) [ none ↦ default | some value ↦ value ]
