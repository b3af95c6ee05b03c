-- ===== src/Tests/Fixtures.antt =====
-- A database, a clock and a random source for the tests of internal/repositories and internal/services.
use mathlib.Core.List.Perm
use blog_go.Prelude.{
  ℕ, zero, suc, ◌+◌, ◌≡◌, refl, ap, String, none, List, [], ◌∷◌, ◌==◌, if◌then◌else◌,
}
use text.Mathlib.Text.{◌==◌ as str_eq}
use blog_go.Action.{ok, branch, ◌>>=◌, map_err, swallow}
use blog_go.Models.{Uuid, Time, AttachedMedia, Post}
use blog_go.Errs.{other, is_unique_violation}
use blog_go.Database.{Tables, Db, Stamp, Fault, User, served, refused, pool_exec}
use blog_go.Services.{UuidText, Runtime}

-- An identifier is written with as many letters as its number says.
abbrev letters : ℕ → String
letters zero = String.[]
letters (suc n) = String.◌∷◌ "x" (letters n)

abbrev size : String → ℕ
size String.[] = zero
size (String.◌∷◌ c s) = suc (size s)

pub size-letters : (n : ℕ) → size (letters n) ≡ n
size-letters zero = refl
size-letters (suc n) = ap suc (size-letters n)

abbrev pub uuid_text : UuidText
uuid_text = record {
  to_string = letters;
  parse = λ s. ok (size s);
  parse-to_string = λ n. ap ok (size-letters n);
}

abbrev pub ann : User
ann = record { id = 1; login = "ann"; email = "a@x"; password_hash = "h" }

abbrev pub bob : User
bob = record { id = 2; login = "bob"; email = "b@x"; password_hash = "g" }

abbrev pub start_tables : Tables
start_tables = record {
  users = ann ∷ bob ∷ [];
  subscriber_author = [];
  allowed_refresh_tokens = record { jti = 7; user_id = 1; expires_at = 9 } ∷ [];
  posts = [];
  post_media = [];
  outbox = [];
}

abbrev pub stamp_of : ℕ → ℕ → Stamp
stamp_of uuid now = record {
  uuid = uuid;
  now = now;
  row_order = λ rows. rows;
  media_order = λ media. media;
  row_order-Perm = λ rows. Perm.refl rows;
  media_order-Perm = λ media. Perm.refl media;
}

-- The stamps count the calls.
abbrev pub db_with : Tables → (ℕ → Fault) → Db
db_with t faults = record {
  tables = t;
  faults = faults;
  stamps = λ n. stamp_of (900 + n) n;
  tick = 0;
}

abbrev pub start_db : Db
start_db = db_with start_tables (λ n. served)

abbrev pub runtime : Runtime Db
runtime = record {
  now = λ db. (ok 5_000_000_000, db);
  new_uuid = λ db. (ok (db.tick + 100), db);
  create_hash = λ password db. (ok password, db);
  compare_password_and_hash = λ password hash. ok (str_eq password hash);
  sign = λ claims. ok claims.token_type;
}

-- What a run of the actions computes with.
unfoldable pub actions : Unit {0}
unfolding branch ◌>>=◌ map_err swallow pool_exec is_unique_violation
actions = tt

-- A database that refuses one call.
abbrev pub refusing_at : Tables → ℕ → Db
refusing_at t k = db_with t (λ n. if n == k then refused (other "connection reset") else served)

abbrev pub photo : AttachedMedia
photo = record {
  id = 31;
  post_id = 30;
  media_type = "image";
  mime_type = "image/png";
  url = "u";
  display_order = 1;
}

abbrev pub post_with : Uuid → Time → List AttachedMedia → Post
post_with id created_at attached = record {
  id = id;
  author_id = 1;
  reply_to = none;
  content = "hello";
  created_at = created_at;
  deleted_at = none;
  attached = attached;
}

abbrev pub post : Post
post = post_with 30 50_000 (photo ∷ [])
