-- ===== src/Routes/Replay.antt =====
-- A refresh token that was used up, over any further requests to internal/routes/routes.go.
use blog_go.Prelude.{ℕ, ◌≡◌, ◌≢◌, refl, true, some, List, arith}
use blog_go.Action.{Result, ok, err}
use blog_go.Action.Laws.{Ensures}
use blog_go.Models.{Uuid, TokenPair}
use blog_go.Middleware.Jwt.{passed, pass_refresh}
use blog_go.Middleware.Responses.{Body, Response, json, silent, respond}
use blog_go.Handles.Context.{
  Request, Payload, Reply, Handler, failure, token_pair, empty, uuid_value,
}
use blog_go.Handles.Auth.{refresh, logout}
use blog_go.Handles.Sessions.{refresh-Ensures, logout-Ensures}
use blog_go.Repositories.Tokens.Revocation.{is_allowed}
use blog_go.Routes.{
  App, Incoming, Call, request_of, v1_routes, route_of, answers, written, run, through, guarded,
  serve, found_route, handle, handle_all, bodies_of, only,
}
use blog_go.Routes.World.{World, Parts, world_app}
use blog_go.Routes.Invariants.{handle_all-Keeps}
use blog_go.Routes.Sessions.{IsOffAt, world_list, world-fresh, world_app-AppKeeps}

abbrev pub refresh_call : Incoming → Call
refresh_call inc = record { method = "POST"; path = "/auth/refresh"; incoming = inc }

abbrev pub logout_call : Incoming → Call
logout_call inc = record { method = "POST"; path = "/auth/logout"; incoming = inc }

module _ {W : Type 0} (app : App W) where
  bodies_of-failure :
      (r : Response) (status : ℕ) (p : Payload)
      → ((b : Body) → failure b ≢ p)
      → bodies_of r ≢ only status p
  unfolding bodies_of
  bodies_of-failure (json s b) status p differs e = differs b (ground arith)
  bodies_of-failure silent status p differs e = ground arith

  -- An answer that is no failure comes from a handler that has succeeded.
  answers-ok :
      (r : Result Reply) (status : ℕ) (p : Payload)
      → ((b : Body) → failure b ≢ p)
      → answers app r ≡ only status p
      → (x : Reply) × (r ≡ ok x)
  unfolding answers written
  answers-ok (ok x) status p differs e = (x, refl)
  answers-ok (err e) status p differs h =
      absurd (bodies_of-failure (respond app.to_lower e) status p differs h)

  module _ (inc : Incoming) (user_id jti : Uuid) (w : W)
      (admitted : pass_refresh app.jwt inc.authorization ≡ passed user_id (some jti)) where
    abbrev let_in : Request
    let_in = request_of inc (some (uuid_value user_id)) (some (uuid_value jti))

    handle-refresh :
        handle app (refresh_call inc) w
        ≡ run app (refresh app.uuids app.runtime app.token_repo) let_in w
    unfolding handle found_route route_of v1_routes serve guarded through
    handle-refresh = rw admitted refl

    handle-logout :
        handle app (logout_call inc) w
        ≡ run app (logout app.uuids app.runtime app.token_repo) let_in w
    unfolding handle found_route route_of v1_routes serve guarded through
    handle-logout = rw admitted refl

module _ {R M : Type 0} (parts : Parts R M) (jti : Uuid)
    (fresh : (m : M) → (parts.runtime.new_uuid m).0 ≢ ok jti) (inc : Incoming) (user_id : Uuid)
    (admitted : pass_refresh parts.jwt inc.authorization ≡ passed user_id (some jti))
    (w : World R M) where
  -- A refresh or a logout that succeeds finds its token on the allow list and leaves it off the list.
  used_up :
      (handler : Handler (World R M)) (req : Request) (status : ℕ) (p : Payload)
      → ((v : World R M)
          → Ensures (λ _ v'. (is_allowed jti v.db.tables ≡ true) × IsOffAt jti v') (handler req v))
      → ((b : Body) → failure b ≢ p)
      → (run (world_app parts) handler req w).0 ≡ only status p
      → (is_allowed jti w.db.tables ≡ true) × IsOffAt jti (run (world_app parts) handler req w).1
  unfolding run
  used_up handler req status p ensures differs answered =
      let (x, done) = answers-ok (world_app parts) (handler req w).0 status p differs answered in
      (ensures w).at x (handler req w).1 (ground arith)

  refreshed :
      (pair : TokenPair)
      → (handle (world_app parts) (refresh_call inc) w).0 ≡ only 200 (token_pair pair)
      → (is_allowed jti w.db.tables ≡ true)
        × IsOffAt jti (handle (world_app parts) (refresh_call inc) w).1
  unfolding world_list
  refreshed pair = rw (handle-refresh (world_app parts) inc user_id jti w admitted) (
      used_up _ _ 200 (token_pair pair)
        (refresh-Ensures parts.uuids (world_list parts) jti (world-fresh parts jti fresh) _ refl)
        (λ b e. ground arith))

  logged_out :
      (handle (world_app parts) (logout_call inc) w).0 ≡ only 204 empty
      → (is_allowed jti w.db.tables ≡ true)
        × IsOffAt jti (handle (world_app parts) (logout_call inc) w).1
  unfolding world_list
  logged_out = rw (handle-logout (world_app parts) inc user_id jti w admitted) (
      used_up _ _ 204 empty
        (logout-Ensures parts.uuids (world_list parts) jti (world-fresh parts jti fresh) _ refl)
        (λ b e. ground arith))

module _ {R M : Type 0} (parts : Parts R M) (jti : Uuid)
    (fresh : (m : M) → (parts.runtime.new_uuid m).0 ≢ ok jti) (inc inc' : Incoming)
    (user_id user_id' : Uuid)
    (admitted : pass_refresh parts.jwt inc.authorization ≡ passed user_id (some jti))
    (admitted' : pass_refresh parts.jwt inc'.authorization ≡ passed user_id' (some jti))
    (w : World R M) (calls : List Call) (pair' : TokenPair) where
  off_for_good :
      (v : World R M)
      → IsOffAt jti v
      → (handle (world_app parts) (refresh_call inc') (handle_all (world_app parts) calls v)).0
        ≢ only 200 (token_pair pair')
  off_for_good v off answered =
      let later =
        handle_all-Keeps (world_app parts) (world_app-AppKeeps parts jti fresh) calls v off in
      let (listed, _) = refreshed parts jti fresh inc' user_id' admitted' _ pair' answered in
      ground (arith, later, listed)

  -- A refresh token that `POST /auth/refresh` answered with a pair of tokens is never answered with one
  -- again, in whichever header it is sent: after any further requests to any routes, whatever the
  -- database, Redis and the libraries answer them, if `uuid.New` does not draw the token's identifier
  -- again.
  pub handle-refresh_never_again :
      (pair : TokenPair)
      → (handle (world_app parts) (refresh_call inc) w).0 ≡ only 200 (token_pair pair)
      → (handle
          (world_app parts)
          (refresh_call inc')
          (handle_all (world_app parts) calls (handle (world_app parts) (refresh_call inc) w).1)).0
        ≢ only 200 (token_pair pair')
  handle-refresh_never_again pair answered =
      off_for_good _ (refreshed parts jti fresh inc user_id admitted w pair answered).1

  -- The same holds after `POST /auth/logout` was answered with status 204.
  pub handle-logout_never_again :
      (handle (world_app parts) (logout_call inc) w).0 ≡ only 204 empty
      → (handle
          (world_app parts)
          (refresh_call inc')
          (handle_all (world_app parts) calls (handle (world_app parts) (logout_call inc) w).1)).0
        ≢ only 200 (token_pair pair')
  handle-logout_never_again answered =
      off_for_good _ (logged_out parts jti fresh inc user_id admitted w answered).1
