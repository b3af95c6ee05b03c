-- ===== src/Models.antt =====
-- internal/webModels: the values that go over the wire. A `uuid.UUID` is the number of its 16 bytes,
-- a `time.Time` the nanoseconds since 1970, an `int` a 64-bit pattern.
pub mod Validators
use blog_go.Prelude.{ℕ, ◌/◌, String, Option, List}

abbrev pub Uuid : Type 0
Uuid = ℕ

abbrev pub Time : Type 0
Time = ℕ

-- `Time.UnixMilli`
unfoldable pub unix_milli : Time → ℕ
unix_milli t = t / 1_000_000

pub record TokenPair : Type 0 where
  pub access_token : String
  pub refresh_token : String

pub record UserRegisterInfo : Type 0 where
  pub login : String
  pub email : String
  pub password : String

pub record UserLoginInfo : Type 0 where
  pub login : String
  pub email : String
  pub password : String

pub record AttachedMedia : Type 0 where
  pub id : Uuid
  pub post_id : Uuid
  pub media_type : String
  pub mime_type : String
  pub url : String
  pub display_order : ℕ

pub record Post : Type 0 where
  pub id : Uuid
  pub author_id : Uuid
  pub reply_to : Option Uuid
  pub content : String
  pub created_at : Time
  pub deleted_at : Option Time
  pub attached : List AttachedMedia

pub record CreateAttachedMedia : Type 0 where
  pub media_type : String
  pub mime_type : String
  pub url : String
  pub display_order : ℕ

pub record CreatePostRequest : Type 0 where
  pub reply_to : Option Uuid
  pub content : String
  pub attached : List CreateAttachedMedia

pub record PostPaginationCursor : Type 0 where
  pub last_id : Uuid
  pub last_time : Time

pub record PostPaginationResponse : Type 0 where
  pub posts : List Post
  pub cursor : String
