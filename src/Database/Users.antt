-- ===== src/Database/Users.antt =====
-- internal/database/user.sql.go with the constraints of migrations 00001 and 00003: the statements
-- on `users` and `subscriber_author`. A check fails with SQLSTATE 23514, a unique key with 23505, a
-- foreign key with 23503, a text that is too long with 22001.
use Prim.Native.Char.{code}
use text.Mathlib.Text.{◌==◌ as str_eq}
use blog_go.Prelude.{
  ℕ, zero, suc, true, false, String, Bool, ◌&&◌, ◌||◌, not, List, [], ◌∷◌, ◌++◌, map, Option, none,
  some, ◌==◌, if◌then◌else◌, filter, any, find?, length,
}
use blog_go.Errs.{sentinel, pg_error, err_no_rows}
use blog_go.Action.{Result, ok, err}
use blog_go.Models.{Uuid}
use blog_go.Database.{User, SubscriberAuthor, Tables, Query}

-- A `:one` query: the first row, or `pgx.ErrNoRows`.
abbrev pub one : {A : Type 0} → Option A → Result A
one none = err (sentinel err_no_rows)
one (some a) = ok a

-- The column `varchar(n)`: a text that is too long is refused, or cut where its excess is only spaces.
is_blank : String → Bool
is_blank String.[] = true
is_blank (String.◌∷◌ c s) = code c == 32 && is_blank s

unfoldable pub is_over : ℕ → String → Bool
unfolding is_blank
is_over zero s = not (is_blank s)
is_over (suc n) String.[] = false
is_over (suc n) (String.◌∷◌ c s) = is_over n s

abbrev pub cut_to : ℕ → String → String
cut_to zero s = ""
cut_to (suc n) String.[] = ""
cut_to (suc n) (String.◌∷◌ c s) = String.◌∷◌ c (cut_to n s)

unfoldable pub stored_user : User → User
stored_user u = record u {
  login = cut_to 20 u.login;
  email = cut_to 30 u.email;
  password_hash = cut_to 100 u.password_hash;
}

unfoldable pub add_user : User → Query (Unit {0})
unfolding stored_user is_over
add_user u stamp t =
    let row = stored_user u in
    if is_over 20 u.login || is_over 30 u.email || is_over 100 u.password_hash
    then (err (pg_error "22001"), t)
    else if any (λ v. v.id == row.id || str_eq v.login row.login || str_eq v.email row.email)
        t.users
    then (err (pg_error "23505"), t)
    else (ok tt, record t { users = t.users ++ row ∷ [] })

unfoldable pub find_user_by_id : Uuid → Query User
find_user_by_id id stamp t = (one (find? (λ u. u.id == id) t.users), t)

unfoldable pub find_user_by_login : String → Query User
find_user_by_login login stamp t = (one (find? (λ u. str_eq u.login login) t.users), t)

unfoldable pub find_user_by_login_or_email : String → String → Query User
find_user_by_login_or_email login email stamp t =
    (one (find? (λ u. str_eq u.login login || str_eq u.email email) t.users), t)

-- `sub_id = $1 AND auth_id = $2`
abbrev pub is_pair : Uuid → Uuid → SubscriberAuthor → Bool
is_pair sub_id auth_id r = r.sub_id == sub_id && r.auth_id == auth_id

abbrev pub has_user : Uuid → Tables → Bool
has_user id t = any (λ u. u.id == id) t.users

unfoldable pub get_subscribers : Uuid → Query (List Uuid)
get_subscribers auth_id stamp t =
    (ok (map (λ r. r.sub_id) (filter (λ r. r.auth_id == auth_id) t.subscriber_author)), t)

unfoldable pub subscribe_user_to : Uuid → Uuid → Query (Unit {0})
subscribe_user_to sub_id auth_id stamp t =
    if sub_id == auth_id
    then (err (pg_error "23514"), t)
    else if any (is_pair sub_id auth_id) t.subscriber_author
    then (err (pg_error "23505"), t)
    else if has_user sub_id t && has_user auth_id t
    then (
      ok tt,
      record t {
        subscriber_author =
            t.subscriber_author ++ record { sub_id = sub_id; auth_id = auth_id } ∷ [];
      },
    )
    else (err (pg_error "23503"), t)

-- The number of rows that went.
unfoldable pub unsubscribe_user_from : Uuid → Uuid → Query ℕ
unsubscribe_user_from sub_id auth_id stamp t = (
  ok (length (filter (is_pair sub_id auth_id) t.subscriber_author)),
  record t { subscriber_author = filter (λ r. not (is_pair sub_id auth_id r)) t.subscriber_author },
)
