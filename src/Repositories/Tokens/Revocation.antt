-- ===== src/Repositories/Tokens/Revocation.antt =====
-- What a token repository call leaves in the table of internal/repositories/tokenRepository.go.
use blog_go.Prelude.{
  ℕ, ◌≡◌, ◌≢◌, refl, Bool, false, not, ◌||◌, List, [], ◌∷◌, arith, ◌==◌, any, filter, length,
  any-append, any-filter-not, any-filter-false, length,
}
use blog_go.Action.{ok}
use blog_go.Action.Laws.{>>=-eq-ok, map_err-eq-ok}
use blog_go.Action.Keeps.{Keeps, Keeps-map_err, keeps_rules}
use blog_go.Models.{Uuid, Time}
use blog_go.Database.{to_micros, Db, Tables, Stamp, pool_exec, AllowedRefreshToken}
use blog_go.Database.Statements.{pool_exec-eq-ok, pool_exec-tables}
use blog_go.Database.Tokens.{add_refresh_token, delete_refresh_token}
use blog_go.Repositories.Tokens.{add_token, try_to_delete_token}

-- The refresh token is on the allow list.
abbrev pub is_allowed : Uuid → Tables → Bool
is_allowed jti t = any (λ s. s.jti == jti) t.allowed_refresh_tokens

length-filter-any :
    (p : AllowedRefreshToken → Bool) (rows : List AllowedRefreshToken)
    → not (length (filter p rows) == 0) ≡ any p rows
length-filter-any p [] = refl
length-filter-any p (r ∷ rows) = ground (arith, length-filter-any p rows)

deleted :
    (jti : Uuid) (stamp : Stamp) (t t' : Tables) (cnt : ℕ)
    → delete_refresh_token jti stamp t ≡ (ok cnt, t')
    → (not (cnt == 0) ≡ is_allowed jti t) × (is_allowed jti t' ≡ false)
unfolding delete_refresh_token
deleted jti stamp t t' cnt h = ground (
  arith,
  length-filter-any (λ s. s.jti == jti) t.allowed_refresh_tokens,
  any-filter-not (λ s. s.jti == jti) t.allowed_refresh_tokens,
)

-- A deletion that returned says whether the token was on the list, and the token is off it.
pub try_to_delete_token-eq-ok :
    (jti : Uuid) (db db' : Db) (r : Bool)
    → try_to_delete_token jti db ≡ (ok r, db')
    → (r ≡ is_allowed jti db.tables) × (is_allowed jti db'.tables ≡ false)
unfolding try_to_delete_token
try_to_delete_token-eq-ok jti db db' r h =
    let (cnt, u, call, same) = >>=-eq-ok (pool_exec (delete_refresh_token jti)) _ db h in
    let ran = pool_exec-eq-ok (delete_refresh_token jti) db u cnt call in
    let (counted, gone) = deleted jti (db.stamps db.tick) db.tables u.tables cnt ran in
    (ground arith, ground arith)

-- A token that was added is on the list, and the other tokens are where they were.
pub add_token-eq-ok :
    (jti user_id : Uuid) (expires_at : Time) (db db' : Db)
    → add_token jti user_id expires_at db ≡ (ok tt, db')
    → (j : Uuid) → is_allowed j db'.tables ≡ (is_allowed j db.tables || jti == j)
unfolding add_token add_refresh_token
add_token-eq-ok jti user_id expires_at db db' h j =
    let row : AllowedRefreshToken = record {
      jti = jti;
      user_id = user_id;
      expires_at = expires_at;
    } in
    let kept : AllowedRefreshToken = record row { expires_at = to_micros expires_at } in
    let ran = pool_exec-eq-ok (add_refresh_token row) db db' tt (map_err-eq-ok _ _ db h) in
    ground (arith, any-append (λ s. s.jti == j) db.tables.allowed_refresh_tokens (kept ∷ []))

module _ (jti : Uuid) where
  -- The token is off the list.
  abbrev pub IsOff : Db → Type 0
  IsOff db = is_allowed jti db.tables ≡ false

  delete_refresh_token-IsOff : (j : Uuid) → Keeps IsOff (pool_exec (delete_refresh_token j))
  unfolding delete_refresh_token
  delete_refresh_token-IsOff j = record {
    at = λ db off. ground (
      arith,
      pool_exec-tables (delete_refresh_token j) db,
      any-filter-false (λ s. s.jti == jti) (λ s. not (s.jti == j)) db.tables.allowed_refresh_tokens,
    );
  }

  pub try_to_delete_token-IsOff : (j : Uuid) → Keeps IsOff (try_to_delete_token j)
  unfolding try_to_delete_token
  try_to_delete_token-IsOff j = search (keeps_rules, delete_refresh_token-IsOff)

  pub add_token-IsOff :
      (j user_id : Uuid) (expires_at : Time)
      → j ≢ jti
      → Keeps IsOff (add_token j user_id expires_at)
  unfolding add_token add_refresh_token
  add_token-IsOff j user_id expires_at other =
      let row : AllowedRefreshToken = record {
        jti = j;
        user_id = user_id;
        expires_at = expires_at;
      } in
      let kept : AllowedRefreshToken = record row { expires_at = to_micros expires_at } in
      Keeps-map_err _ _ (record {
        at = λ db off. ground (
          arith,
          pool_exec-tables (add_refresh_token row) db,
          any-append (λ s. s.jti == jti) db.tables.allowed_refresh_tokens (kept ∷ []),
        );
      })
