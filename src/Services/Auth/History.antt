-- ===== src/Services/Auth/History.antt =====
-- Refresh tokens over any history of requests to internal/services/authService.go, whatever the
-- database answers on the way.
use blog_go.Prelude.{◌≡◌, ◌≢◌, List, [], ◌∷◌, arith}
use blog_go.Action.{ok}
use blog_go.Models.{Uuid, TokenPair}
use blog_go.Database.{Db}
use blog_go.Repositories.Tokens.{token_repository}
use blog_go.Repositories.Tokens.Revocation.{
  is_allowed, IsOff, try_to_delete_token-eq-ok, try_to_delete_token-IsOff, add_token-IsOff,
}
use blog_go.Services.{UuidText, Runtime}
use blog_go.Services.Auth.{sign_jwt, rotate_jwt, logout_by_refresh}
use blog_go.Services.Auth.AllowList.{
  AllowList, sign_jwt-IsOff, rotate_jwt-IsOff, logout_by_refresh-IsOff, rotate_jwt-Ensures,
  logout_by_refresh-Ensures,
}
use blog_go.Services.Auth.Rotation.{KeepsTables}

-- A request that reaches the service: the `SignJWT` of a login, a rotation, a logout.
pub data Call : Type 0 where
  login : Uuid → Call
  refresh : Uuid → Uuid → Call
  logout : Uuid → Call

module _ (uuids : UuidText) (rt : Runtime Db) where
  pub perform : Call → Db → Db
  perform (login user_id) db = (sign_jwt uuids rt token_repository user_id db).1
  perform (refresh jti user_id) db = (rotate_jwt uuids rt token_repository jti user_id db).1
  perform (logout jti) db = (logout_by_refresh uuids rt token_repository jti db).1

  unfoldable pub serve : List Call → Db → Db
  unfolding perform
  serve [] db = db
  serve (call ∷ calls) db = serve calls (perform call db)

-- The table is such a list.
table_list : (rt : Runtime Db) → KeepsTables rt → AllowList rt token_repository
unfolding token_repository
table_list rt keeps = record {
  is_listed = λ jti db. is_allowed jti db.tables;
  deleted = try_to_delete_token-eq-ok;
  delete_keeps = try_to_delete_token-IsOff;
  add_keeps = add_token-IsOff;
  now_keeps = λ jti. record { at = λ db off. ground (arith, keeps.at_now db) };
  new_uuid_keeps = λ jti. record { at = λ db off. ground (arith, keeps.at_new_uuid db) };
}

module _ (uuids : UuidText) (rt : Runtime Db) (keeps : KeepsTables rt) (jti : Uuid)
    (fresh : (d : Db) → (rt.new_uuid d).0 ≢ ok jti) where
  abbrev list : AllowList rt token_repository
  list = table_list rt keeps

  perform-IsOff : (call : Call) (db : Db) → IsOff jti db → IsOff jti (perform uuids rt call db)
  unfolding perform table_list
  perform-IsOff (login user_id) db off = (sign_jwt-IsOff uuids list jti fresh user_id).at db off
  perform-IsOff (refresh j user_id) db off =
      (rotate_jwt-IsOff uuids list jti fresh j user_id).at db off
  perform-IsOff (logout j) db off = (logout_by_refresh-IsOff uuids list jti fresh j).at db off

  serve-IsOff : (calls : List Call) (db : Db) → IsOff jti db → IsOff jti (serve uuids rt calls db)
  unfolding serve
  serve-IsOff [] db off = off
  serve-IsOff (call ∷ calls) db off =
      serve-IsOff calls (perform uuids rt call db) (perform-IsOff call db off)

  -- A token that is off the list can be neither rotated nor logged out, now or after any history.
  off-refused :
      (calls : List Call) (db : Db)
      → IsOff jti db
      → (user_id : Uuid) (pair : TokenPair) (db' : Db)
      → rotate_jwt uuids rt token_repository jti user_id (serve uuids rt calls db) ≢ (ok pair, db')
  unfolding table_list
  off-refused calls db off user_id pair db' rotated =
      let listed =
        (rotate_jwt-Ensures uuids list jti fresh user_id (serve uuids rt calls db)).at pair db'
          rotated in
      ground (arith, serve-IsOff calls db off, listed.0)

  -- A refresh token that was exchanged once is never exchanged again: after any further logins,
  -- rotations and logouts, of any users and with any failures of the database, another rotation of it
  -- returns no pair, if `uuid.New` does not draw its identifier again and the clock and the random
  -- source change no table.
  pub rotate_jwt-never_again :
      (user_id user_id' : Uuid) (pair pair' : TokenPair) (db db' db'' : Db) (calls : List Call)
      → rotate_jwt uuids rt token_repository jti user_id db ≡ (ok pair, db')
      → rotate_jwt uuids rt token_repository jti user_id' (serve uuids rt calls db')
        ≢ (ok pair', db'')
  unfolding table_list
  rotate_jwt-never_again user_id user_id' pair pair' db db' db'' calls rotated =
      off-refused calls db'
        ((rotate_jwt-Ensures uuids list jti fresh user_id db).at pair db' rotated).1 user_id' pair'
        db''

  -- The same after a logout with the token.
  pub logout_by_refresh-never_again :
      (user_id' : Uuid) (pair' : TokenPair) (db db' db'' : Db) (calls : List Call)
      → logout_by_refresh uuids rt token_repository jti db ≡ (ok tt, db')
      → rotate_jwt uuids rt token_repository jti user_id' (serve uuids rt calls db')
        ≢ (ok pair', db'')
  unfolding table_list
  logout_by_refresh-never_again user_id' pair' db db' db'' calls gone =
      off-refused calls db' ((logout_by_refresh-Ensures uuids list jti fresh db).at tt db' gone).1
        user_id' pair' db''
