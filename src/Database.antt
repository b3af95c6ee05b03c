-- ===== src/Database.antt =====
-- internal/database/models.go and the schema of migrations/*.sql: the tables, and a connection that
-- runs statements against them. What the network does to a statement is not the program's: `faults`
-- says for each call whether the server answers, is not reached, or answers in vain after it has run
-- the statement. `stamps` gives what the server draws for each call.
pub mod Users
pub mod Tokens
pub mod Posts
pub mod Outbox
pub mod Statements
use mathlib.Core.List.{Perm}
use blog_go.Prelude.{ℕ, ◌+◌, ◌*◌, ◌/◌, String, Bool, List}
use blog_go.Errs.{Error}
use blog_go.Action.{Result, ok, err, Action}
use blog_go.Models.{Uuid, Time, Post}

pub record User : Type 0 where
  pub id : Uuid
  pub login : String
  pub email : String
  pub password_hash : String

pub record SubscriberAuthor : Type 0 where
  pub sub_id : Uuid
  pub auth_id : Uuid

pub record AllowedRefreshToken : Type 0 where
  pub jti : Uuid
  pub user_id : Uuid
  pub expires_at : Time

-- `uuid.NullUUID` and `pgtype.Timestamptz`: a value that counts only where `valid` is set.
pub record NullUuid : Type 0 where
  pub uuid : Uuid
  pub valid : Bool

pub record Timestamptz : Type 0 where
  pub time : Time
  pub valid : Bool

-- A `timestamptz` column keeps whole microseconds.
unfoldable pub to_micros : Time → Time
to_micros t = t / 1_000 * 1_000

abbrev pub micros : Timestamptz → Timestamptz
micros t = record t { time = to_micros t.time }

pub record PostRow : Type 0 where
  pub id : Uuid
  pub author_id : Uuid
  pub reply_to : NullUuid
  pub content : String
  pub created_at : Timestamptz
  pub deleted_at : Timestamptz

pub record PostMedium : Type 0 where
  pub id : Uuid
  pub post_id : Uuid
  pub media_type : String
  pub mime_type : String
  pub url : String
  pub display_order : ℕ

-- The enum has two values; a string in Go can be any other.
pub data OutboxMessageType : Type 0 where
  post_added post_deleted : OutboxMessageType
  unknown_type : String → OutboxMessageType

pub record OutboxRow : Type 0 where
  pub id : Uuid
  pub message_type : OutboxMessageType
  pub payload : Post
  pub created_at : Time
  pub processed_at : Timestamptz

pub record Tables : Type 0 where
  pub users : List User
  pub subscriber_author : List SubscriberAuthor
  pub allowed_refresh_tokens : List AllowedRefreshToken
  pub posts : List PostRow
  pub post_media : List PostMedium
  pub outbox : List OutboxRow

-- What the server draws for a call: `gen_random_uuid()`, `now()`, and the order of the rows of a `SELECT`
-- without `ORDER BY`, which is any one.
pub record Stamp : Type 0 where
  pub uuid : Uuid
  pub now : Time
  pub row_order : List PostRow → List PostRow
  pub media_order : List PostMedium → List PostMedium
  pub row_order-Perm : (rows : List PostRow) → Perm (row_order rows) rows
  pub media_order-Perm : (media : List PostMedium) → Perm (media_order media) media

pub data Fault : Type 0 where
  served : Fault
  -- the statement has not run
  refused : Error → Fault
  -- the statement has run, and its answer was lost
  lost : Error → Fault

pub record Db : Type 0 where
  pub tables : Tables
  pub faults : ℕ → Fault
  pub stamps : ℕ → Stamp
  pub tick : ℕ

-- A statement as the server runs it.
abbrev pub Query : Type 0 → Type 0
Query A = Stamp → Tables → Result A × Tables

module _ {A : Type 0} where
  unfoldable pub answer : Fault → Result A × Tables → Tables → Result A × Tables
  answer served (r, after) before = (r, after)
  answer (refused e) (r, after) before = (err e, before)
  answer (lost e) (r, after) before = (err e, after)

  -- `db.Exec`, `db.Query` and `db.QueryRow` on the pool.
  unfoldable pub pool_exec : Query A → Action Db A
  unfolding answer
  pool_exec q db =
      let (r, after) = answer (db.faults db.tick) (q (db.stamps db.tick) db.tables) db.tables in
      (r, record db { tables = after; tick = db.tick + 1 })
