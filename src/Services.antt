-- ===== src/Services.antt =====
-- internal/services: what the services take from outside the repository. `Runtime` has the clock,
-- `uuid.New`, argon2id and the JWT signature as actions or functions; `UuidText` the text form of an
-- identifier.
pub mod Auth
pub mod Users
pub mod Posts
pub mod Feed
use blog_go.Prelude.{ℕ, ◌/◌, ◌^◌, ◌≡◌, String, Bool}
use blog_go.Action.{Result, ok, Action}
use blog_go.Models.{Uuid, Time}

-- `uuid.UUID.String` and `uuid.Parse`.
pub record UuidText : Type 0 where
  pub to_string : Uuid → String
  pub parse : String → Result Uuid
  pub parse-to_string : (id : Uuid) → parse (to_string id) ≡ ok id

-- `TokenClaims` with the registered claims that are set; a date is in seconds, an `ID` that is not
-- set is the empty text.
pub record TokenClaims : Type 0 where
  pub token_type : String
  pub issuer : String
  pub subject : String
  pub issued_at : ℕ
  pub expires_at : ℕ
  pub id : String

abbrev pub auth_type : String
auth_type = "auth"

abbrev pub refresh_type : String
refresh_type = "refresh"

abbrev pub issuer_name : String
issuer_name = "blog"

-- `jwt.NewNumericDate`: whole seconds.
abbrev pub numeric_date : Time → ℕ
numeric_date t = t / 1_000_000_000

pub record Runtime (W : Type 0) : Type 0 where
  pub now : Action W Time
  pub new_uuid : Action W Uuid
  -- `argon2id.CreateHash` draws a salt
  pub create_hash : String → Action W String
  pub compare_password_and_hash : String → String → Result Bool
  -- `jwt.NewWithClaims(signMethod, claims).SignedString(privateKey)`
  pub sign : TokenClaims → Result String
