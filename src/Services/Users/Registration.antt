-- ===== src/Services/Users/Registration.antt =====
-- A registration through internal/services/userAccessService.go, and the login of
-- internal/services/authService.go after it.
use text.Mathlib.Text.{◌==◌ as str_eq}
use text.Mathlib.TextEquality.{eq_iff}
use blog_go.Prelude.{
  ◌≡◌, refl, sym, ap, ◌∙◌, String, Bool, true, false, ◌&&◌, ◌||◌, not, some, List, [], ◌∷◌, ◌++◌,
  arith, ◌==◌, any, find?, find?-append,
}
use blog_go.Errs.{is, err_user_not_found}
use blog_go.Action.{ok, ◌>>=◌, map_err}
use blog_go.Action.Laws.{
  Ensures, Ensures-bind, Ensures-pure, Ensures-fail, Ensures-branch, Ensures-if, map_err-eq-ok,
}
use blog_go.Models.{UserRegisterInfo}
use blog_go.Database.{Db, Tables, Stamp, User, served, answer, pool_exec}
use blog_go.Database.Statements.{pool_exec-eq-ok}
use blog_go.Database.Users
use blog_go.Database.Users.{stored_user}
use blog_go.Repositories.Users.{user_repository, add_user, find_user_by_login_or_email}
use blog_go.Services.{Runtime}
use blog_go.Services.Auth.{authenticate_user}
use blog_go.Services.Users.{create_user, register, already_exists}

-- The row has a key that is the user's.
abbrev is_taken : User → User → Bool
is_taken u v = v.id == u.id || str_eq v.login u.login || str_eq v.email u.email

abbrev is_named : String → String → User → Bool
is_named login email v = str_eq v.login login || str_eq v.email email

added :
    (u : User) (stamp : Stamp) (t t' : Tables)
    → Users.add_user u stamp t ≡ (ok tt, t')
    → (any (is_taken (stored_user u)) t.users ≡ false) × (t'.users ≡ t.users ++ stored_user u ∷ [])
unfolding Users.add_user
added u stamp t t' h = ground arith

not_named :
    (u : User) (us : List User)
    → any (is_taken u) us ≡ false
    → any (is_named u.login u.email) us ≡ false
not_named u [] h = refl
not_named u (v ∷ us) h = ground (arith, not_named u us)

found_last :
    (u : User) (us : List User)
    → any (is_taken u) us ≡ false
    → find? (is_named u.login u.email) (us ++ u ∷ []) ≡ some u
found_last u us h =
    find?-append (is_named u.login u.email) us (u ∷ []) (not_named u us h)
    ∙ ground (arith, eq_iff u.login u.login)

-- What a registration leaves behind: the user has the given names and a hash of the given password, and
-- a look-up by its names finds it.
pub record Registered (rt : Runtime Db) (info : UserRegisterInfo) (user : User) (db' : Db)
    : Type 0 where
  pub before : Db
  pub after : Db
  pub hashed : rt.create_hash info.password before ≡ (ok user.password_hash, after)
  pub login : user.login ≡ info.login
  pub email : user.email ≡ info.email
  pub stored :
      stored_user user ≡ user → find? (is_named info.login info.email) db'.tables.users ≡ some user

module _ (rt : Runtime Db) (info : UserRegisterInfo) where
  register-Ensures : (db : Db) → Ensures (Registered rt info) (register rt user_repository info db)
  unfolding register user_repository add_user
  register-Ensures db = Ensures-bind _ _ db λ hash d1 hashed.
      Ensures-bind rt.new_uuid _ d1 λ id d2 drawn.
        let user : User = record {
          id = id;
          login = info.login;
          email = info.email;
          password_hash = hash;
        } in
        Ensures-bind _ _ d2 λ r d3 stored.
          let call = map_err-eq-ok _ _ d2 (map_err-eq-ok _ _ d2 stored) in
          let (free, last) =
            added user (d2.stamps d2.tick) d2.tables d3.tables
              (pool_exec-eq-ok (Users.add_user user) d2 d3 tt call) in
          Ensures-pure user d3 (record {
            before = db;
            after = d1;
            hashed = map_err-eq-ok _ _ db hashed;
            login = refl;
            email = refl;
            stored = λ fits.
                ap (find? (is_named info.login info.email))
                  (last ∙ ap (λ (u : User). d2.tables.users ++ u ∷ []) fits)
                ∙ found_last user d2.tables.users
                    (ap (λ u. any (is_taken u) d2.tables.users) (sym fits) ∙ free);
          })

  create_user-Ensures :
      (db : Db) → Ensures (Registered rt info) (create_user rt user_repository info db)
  unfolding create_user already_exists
  create_user-Ensures db =
      Ensures-branch _ _ _ db (λ a u looked. Ensures-fail _ u)
        λ e u looked.
          Ensures-if (not (is e err_user_not_found)) _ _ u (Ensures-fail _ u) (register-Ensures u)

  authenticate_found :
      (user : User) (db : Db)
      → (str_eq info.login "" && str_eq info.email "") ≡ false
      → db.faults db.tick ≡ served
      → find? (is_named info.login info.email) db.tables.users ≡ some user
      → rt.compare_password_and_hash info.password user.password_hash ≡ ok true
      → (authenticate_user rt user_repository
          (record { login = info.login; email = info.email; password = info.password })
          db).0
        ≡ ok user
  unfolding authenticate_user user_repository find_user_by_login_or_email ◌>>=◌ map_err pool_exec
      answer Users.find_user_by_login_or_email
  authenticate_found user db named answers found matches = ground arith

  -- Who has registered can log in: after a `CreateUser` that succeeded, `AuthenticateUser` with the same
  -- names and password returns the new user. One of the names is not empty, the row is stored as it is,
  -- without spaces cut off that exceed a column, the database answers the login, and argon2id matches a
  -- password with the hash that it made of it.
  pub create_user-authenticate_user :
      (user : User) (db db' : Db)
      → (str_eq info.login "" && str_eq info.email "") ≡ false
      → ((hash : String) (d d' : Db)
          → rt.create_hash info.password d ≡ (ok hash, d')
          → rt.compare_password_and_hash info.password hash ≡ ok true)
      → create_user rt user_repository info db ≡ (ok user, db')
      → stored_user user ≡ user
      → db'.faults db'.tick ≡ served
      → (authenticate_user rt user_repository
          (record { login = info.login; email = info.email; password = info.password })
          db').0
        ≡ ok user
  create_user-authenticate_user user db db' named matches created fits answers =
      let r = (create_user-Ensures db).at user db' created in
      authenticate_found user db' named answers (r.stored fits)
        (matches _ r.before r.after r.hashed)
