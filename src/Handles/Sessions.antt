-- ===== src/Handles/Sessions.antt =====
-- `Refresh` and `Logout` of internal/handles/authHandler.go on the allow list.
use blog_go.Prelude.{◌≡◌, ◌≢◌, true, false, some, arith}
use blog_go.Action.{ok, lift}
use blog_go.Action.Laws.{Ensures, Ensures-bind, Ensures-pure, map_err-eq-ok}
use blog_go.Models.{Uuid}
use blog_go.Repositories.{TokenRepository}
use blog_go.Services.{UuidText, Runtime}
use blog_go.Services.Auth.{rotate_jwt, logout_by_refresh}
use blog_go.Services.Auth.AllowList.{AllowList, rotate_jwt-Ensures, logout_by_refresh-Ensures}
use blog_go.Handles.Context.{Request, uuid_value, get_jti, value_or}
use blog_go.Handles.Auth.{refresh, logout}

module _ {W : Type 0} (uuids : UuidText) {rt : Runtime W} {tokens : TokenRepository W}
    (list : AllowList rt tokens) (jti : Uuid) (fresh : (w : W) → (rt.new_uuid w).0 ≢ ok jti)
    (req : Request) (is_set : req.refresh_jti ≡ some (uuid_value jti)) where
  read_jti :
      {W' : Type 0} (w u : W') (j : Uuid) → lift (get_jti req) w ≡ (ok j, u) → (j ≡ jti) × (w ≡ u)
  unfolding get_jti value_or
  read_jti w u j h = ground (arith, is_set)

  -- Both succeed only with a token that is on the list, and leave it off the list.
  pub refresh-Ensures :
      (w : W)
      → Ensures
          (λ _ w'. (list.is_listed jti w ≡ true) × (list.is_listed jti w' ≡ false))
          (refresh uuids rt tokens req w)
  unfolding refresh
  refresh-Ensures w = Ensures-bind _ _ w λ user_id u read. Ensures-bind _ _ u λ j v read'.
      Ensures-bind _ _ v λ pair x rotated.
        let unread : w ≡ u = ground arith in
        let (named, unread') = read_jti u v j read' in
        let rotation = map_err-eq-ok _ _ v rotated in
        let at_start : rotate_jwt uuids rt tokens jti user_id w ≡ (ok pair, x) = cc in
        Ensures-pure _ x ((rotate_jwt-Ensures uuids list jti fresh user_id w).at pair x at_start)

  pub logout-Ensures :
      (w : W)
      → Ensures
          (λ _ w'. (list.is_listed jti w ≡ true) × (list.is_listed jti w' ≡ false))
          (logout uuids rt tokens req w)
  unfolding logout
  logout-Ensures w = Ensures-bind _ _ w λ j u read. Ensures-bind _ _ u λ done x ended.
      let (named, unread) = read_jti w u j read in
      let ending = map_err-eq-ok _ _ u ended in
      let at_start : logout_by_refresh uuids rt tokens jti w ≡ (ok done, x) = cc in
      Ensures-pure _ x ((logout_by_refresh-Ensures uuids list jti fresh w).at done x at_start)
