-- ===== src/Services/Auth/AllowList.antt =====
-- Refresh tokens in internal/services/authService.go over any store of tokens: what the service needs
-- of the allow list, and what a token that is off it stays.
use blog_go.Prelude.{◌≡◌, ◌≢◌, sym, ap, ◌+◌, ◌∙◌, Bool, true, false, Bool-cases, inl, inr}
use blog_go.Action.{ok}
use blog_go.Action.Laws.{Ensures, Ensures-bind, Ensures-pure, Ensures-fail, map_err-eq-ok}
use blog_go.Action.Keeps.{Keeps, Keeps-bind, Keeps-pure, Keeps-map_err, keeps_rules}
use blog_go.Models.{Uuid, Time}
use blog_go.Repositories.{TokenRepository}
use blog_go.Services.{UuidText, Runtime}
use blog_go.Services.Auth.{refresh_lifetime, sign_jwt, rotate_jwt, logout_by_refresh}

-- A deletion says whether the token was on the list and takes it off; no call puts another token on the
-- list than the one that is added; the clock and the random source put none on it.
pub record AllowList {W : Type 0} (rt : Runtime W) (tokens : TokenRepository W) : Type 0 where
  pub is_listed : Uuid → W → Bool
  pub deleted :
      (jti : Uuid) (w w' : W) (r : Bool)
      → tokens.try_to_delete_token jti w ≡ (ok r, w')
      → (r ≡ is_listed jti w) × (is_listed jti w' ≡ false)
  pub delete_keeps :
      (jti j : Uuid) → Keeps (λ w. is_listed jti w ≡ false) (tokens.try_to_delete_token j)
  pub add_keeps :
      (jti j user_id : Uuid) (expires_at : Time)
      → j ≢ jti
      → Keeps (λ w. is_listed jti w ≡ false) (tokens.add_token j user_id expires_at)
  pub now_keeps : (jti : Uuid) → Keeps (λ w. is_listed jti w ≡ false) rt.now
  pub new_uuid_keeps : (jti : Uuid) → Keeps (λ w. is_listed jti w ≡ false) rt.new_uuid

module _ {W : Type 0} (uuids : UuidText) {rt : Runtime W} {tokens : TokenRepository W}
    (list : AllowList rt tokens) (jti : Uuid) (fresh : (w : W) → (rt.new_uuid w).0 ≢ ok jti) where
  abbrev pub IsOff : W → Type 0
  IsOff w = list.is_listed jti w ≡ false

  pub sign_jwt-IsOff : (user_id : Uuid) → Keeps IsOff (sign_jwt uuids rt tokens user_id)
  unfolding sign_jwt
  sign_jwt-IsOff user_id = Keeps-bind rt.now _ (list.now_keeps jti) λ iat _ _.
      Keeps-bind _ _ (search keeps_rules) λ access _ _.
        Keeps-bind rt.new_uuid _ (list.new_uuid_keeps jti) λ id w drawn.
          Keeps-bind _ _ (search keeps_rules) λ refresh _ _.
            Keeps-bind _ _
              (Keeps-map_err _ _ (
                list.add_keeps jti id user_id (iat + refresh_lifetime)
                  (λ same. fresh w (drawn ∙ ap ok same))))
              λ _ _ _. Keeps-pure _

  pub rotate_jwt-IsOff : (j user_id : Uuid) → Keeps IsOff (rotate_jwt uuids rt tokens j user_id)
  unfolding rotate_jwt
  rotate_jwt-IsOff j user_id = search (keeps_rules, list.delete_keeps, sign_jwt-IsOff)

  pub logout_by_refresh-IsOff : (j : Uuid) → Keeps IsOff (logout_by_refresh uuids rt tokens j)
  unfolding logout_by_refresh
  logout_by_refresh-IsOff j = search (keeps_rules, list.delete_keeps)

  -- A rotation that succeeds finds the token on the list and leaves it off the list; so does a logout.
  pub rotate_jwt-Ensures :
      (user_id : Uuid) (w : W)
      → Ensures
          (λ _ w'. (list.is_listed jti w ≡ true) × IsOff w')
          (rotate_jwt uuids rt tokens jti user_id w)
  unfolding rotate_jwt
  rotate_jwt-Ensures user_id w = Ensures-bind _ _ w λ is_success mid deletion.
      let (was, gone) = list.deleted jti w mid is_success (map_err-eq-ok _ _ w deletion) in
      elim (Bool-cases is_success) [
        | inl success ↦ rw success (record {
          at = λ pair w' e. (
            sym was ∙ success,
            sym (ap (λ r. list.is_listed jti r.1) e) ∙ (sign_jwt-IsOff user_id).at mid gone,
          );
        })
        | inr failure ↦ rw failure (Ensures-fail _ mid)
      ]

  pub logout_by_refresh-Ensures :
      (w : W)
      → Ensures
          (λ _ w'. (list.is_listed jti w ≡ true) × IsOff w')
          (logout_by_refresh uuids rt tokens jti w)
  unfolding logout_by_refresh
  logout_by_refresh-Ensures w = Ensures-bind _ _ w λ is_success mid deletion.
      let (was, gone) = list.deleted jti w mid is_success (map_err-eq-ok _ _ w deletion) in
      elim (Bool-cases is_success) [
        | inl success ↦ rw success (Ensures-pure _ mid (sym was ∙ success, gone))
        | inr failure ↦ rw failure (Ensures-fail _ mid)
      ]
