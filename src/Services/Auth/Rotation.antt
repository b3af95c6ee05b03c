-- ===== src/Services/Auth/Rotation.antt =====
-- The life of a refresh token: internal/services/authService.go over
-- internal/repositories/tokenRepository.go.
use blog_go.Prelude.{◌+◌, ◌≡◌, sym, ◌∙◌, true, false, ◌||◌, arith, ◌==◌, Bool-cases, inl, inr}
use blog_go.Errs.{Error}
use blog_go.Action.{Result, ok, err, lift, branch, map_err}
use blog_go.Action.Laws.{Ensures, Ensures-bind, Ensures-pure, Ensures-fail, map_err-eq-ok}
use blog_go.Models.{Uuid, Time, TokenPair}
use blog_go.Database.{Db}
use blog_go.Repositories.Tokens.{token_repository}
use blog_go.Repositories.Tokens.Revocation.{is_allowed, try_to_delete_token-eq-ok, add_token-eq-ok}
use blog_go.Services.{UuidText, Runtime}
use blog_go.Services.Auth.{
  access_claims, refresh_claims, refresh_lifetime, sign_jwt, rotate_jwt, logout_by_refresh,
}

-- The clock and the random source change no table.
pub record KeepsTables (rt : Runtime Db) : Type 0 where
  pub at_now : (db : Db) → (rt.now db).1.tables ≡ db.tables
  pub at_new_uuid : (db : Db) → (rt.new_uuid db).1.tables ≡ db.tables

-- The pair is signed for one user at one time; its refresh token has an identifier that `uuid.New`
-- drew, and that is all that was put on the allow list.
pub record Signed (uuids : UuidText) (rt : Runtime Db) (user_id : Uuid) (db : Db) (pair : TokenPair)
    (db' : Db) : Type 0 where
  pub jti : Uuid
  pub iat : Time
  pub before : Db
  pub drawn : (rt.new_uuid before).0 ≡ ok jti
  pub access_signed : rt.sign (access_claims uuids user_id iat) ≡ ok pair.access_token
  pub refresh_signed : rt.sign (refresh_claims uuids user_id iat jti) ≡ ok pair.refresh_token
  pub allowed : (j : Uuid) → is_allowed j db'.tables ≡ (is_allowed j db.tables || jti == j)

module _ (uuids : UuidText) (rt : Runtime Db) (keeps : KeepsTables rt) where
  lifted :
      {A : Type 0} (g : Error → Error) (r : Result A) (w u : Db) (a : A)
      → map_err g (lift r) w ≡ (ok a, u)
      → (r ≡ ok a) × (w ≡ u)
  unfolding map_err branch
  lifted g (ok a) w u b h = ground arith
  lifted g (err e) w u b h = absurd (ground arith)

  pub sign_jwt-Ensures :
      (user_id : Uuid) (db : Db)
      → Ensures (Signed uuids rt user_id db) (sign_jwt uuids rt token_repository user_id db)
  unfolding sign_jwt token_repository
  sign_jwt-Ensures user_id db = Ensures-bind rt.now _ db λ iat d1 at_now.
      Ensures-bind _ _ d1 λ access d2 signed. Ensures-bind rt.new_uuid _ d2 λ jti d3 drawn.
        Ensures-bind _ _ d3 λ refresh d4 signed'. Ensures-bind _ _ d4 λ done d5 added.
          let (access_ok, e1) = lifted _ _ d1 d2 access signed in
          let (refresh_ok, e2) = lifted _ _ d3 d4 refresh signed' in
          Ensures-pure _ d5 (record {
            jti = jti;
            iat = iat;
            before = d2;
            drawn = ground arith;
            access_signed = access_ok;
            refresh_signed = refresh_ok;
            allowed = λ j. ground (
              arith,
              keeps.at_now db,
              keeps.at_new_uuid d2,
              add_token-eq-ok jti user_id (iat + refresh_lifetime) d4 d5
                  (map_err-eq-ok _ _ d4 added) j,
            );
          })

  pub rotate_jwt-Ensures :
      (jti user_id : Uuid) (db : Db)
      → Ensures
          (λ pair db'.
            (is_allowed jti db.tables ≡ true)
            × (mid : Db) × (is_allowed jti mid.tables ≡ false)
            × Signed uuids rt user_id mid pair db')
          (rotate_jwt uuids rt token_repository jti user_id db)
  unfolding rotate_jwt token_repository
  rotate_jwt-Ensures jti user_id db = Ensures-bind _ _ db λ is_success mid deletion.
      let (was, gone) =
        try_to_delete_token-eq-ok jti db mid is_success (map_err-eq-ok _ _ db deletion) in
      elim (Bool-cases is_success) [
        | inl success ↦ rw success (record {
          at = λ pair db' e.
              (sym was ∙ success, mid, gone, (sign_jwt-Ensures user_id mid).at pair db' e);
        })
        | inr failure ↦ rw failure (Ensures-fail _ mid)
      ]

  pub logout_by_refresh-Ensures :
      (jti : Uuid) (db : Db)
      → Ensures
          (λ _ db'. (is_allowed jti db.tables ≡ true) × (is_allowed jti db'.tables ≡ false))
          (logout_by_refresh uuids rt token_repository jti db)
  unfolding logout_by_refresh token_repository
  logout_by_refresh-Ensures jti db = Ensures-bind _ _ db λ is_success mid deletion.
      let (was, gone) =
        try_to_delete_token-eq-ok jti db mid is_success (map_err-eq-ok _ _ db deletion) in
      elim (Bool-cases is_success) [
        | inl success ↦ rw success (Ensures-pure _ mid (sym was ∙ success, gone))
        | inr failure ↦ rw failure (Ensures-fail _ mid)
      ]
