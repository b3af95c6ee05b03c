-- ===== src/Routes.antt =====
-- internal/routes/routes.go: the services that `CreateRouter` builds, its routes below `/api/v1`, and
-- the way of a request through the middlewares to a handler. gin finds the route and its parameters.
pub mod Access
pub mod Answers
pub mod Invariants
pub mod World
pub mod Sessions
pub mod Replay
pub mod Outbox
pub mod Followers
use text.Mathlib.Text.{◌==◌ as str_eq}
use blog_go.Prelude.{
  ℕ, ◌==◌, String, Text, ◌&&◌, Option, none, some, List, [], ◌∷◌, find?, if◌then◌else◌,
}
use blog_go.Errs.{Error}
use blog_go.Action.{Result, ok, err}
use blog_go.Models.{Uuid}
use blog_go.Cache.{FeedCacher, SubsCacher, PostCacher}
use blog_go.Repositories.{UserRepository, TokenRepository, PostRepository}
use blog_go.Repositories.UserCache.{user_cache_wrapper}
use blog_go.Repositories.PostCache.{post_cache_wrapper}
use blog_go.Services.{UuidText, Runtime}
use blog_go.Middleware.Jwt.{JwtLibrary, Outcome, aborted, passed, pass, pass_refresh}
use blog_go.Middleware.Responses.{Response, json, silent, respond}
use blog_go.Handles.Context.{
  Value, Request, Payload, Reply, Handler, Binding, uuid_value, reply, error_and_reply, panics,
  empty, error_tag, failure,
}
use blog_go.Handles.Pagination.{CursorCodec}
use blog_go.Handles.Auth.{register, login, refresh, logout}
use blog_go.Handles.Posts.{get_posts_by_user_id, send_post, delete_post_by_id}
use blog_go.Handles.Feed.{get_posts}
use blog_go.Handles.Users.{subscribe_to_author, unsubscribe_from_author}

-- What `CreateRouter` is given, over any state: the repositories and the caches, the libraries, and the
-- error of the request's context, if it ends.
pub record App (W : Type 0) : Type 0 where
  pub user_repo : UserRepository W
  pub token_repo : TokenRepository W
  pub post_repo : PostRepository W
  pub feed_cacher : FeedCacher W
  pub subs_cacher : SubsCacher W
  pub post_cacher : PostCacher W
  pub runtime : Runtime W
  pub uuids : UuidText
  pub jwt : JwtLibrary
  pub binding : Binding
  pub codec : CursorCodec
  pub to_lower : String → String
  pub request_ends : Option Error

pub data Guard : Type 0 where
  free access refresh_only : Guard

pub record Route (W : Type 0) : Type 0 where
  pub method : String
  pub path : String
  pub guard : Guard
  pub handler : Handler W

-- A request as gin hands it to the middlewares.
pub record Incoming : Type 0 where
  pub authorization : Option Text
  pub param : String → String
  pub query : String → Option String
  pub body : String

abbrev pub request_of : Incoming → Option Value → Option Value → Request
request_of inc user_id jti = record {
  user_id = user_id;
  refresh_jti = jti;
  param = inc.param;
  query = inc.query;
  body = inc.body;
}

abbrev pub jti_value : Option Uuid → Option Value
jti_value none = none
jti_value (some jti) = some (uuid_value jti)

unfoldable pub bodies_of : Response → List (ℕ × Payload)
bodies_of (json status body) = (status, failure body) ∷ []
bodies_of silent = []

-- What `ctx.JSON` writes: gin leaves the body of a 204 out.
unfoldable pub sent : ℕ → Payload → ℕ × Payload
sent status payload = (status, if status == 204 then empty else payload)

-- One body.
abbrev pub only : ℕ → Payload → List (ℕ × Payload)
only status payload = (status, payload) ∷ []

module _ {W : Type 0} (app : App W) where
  abbrev pub user_repo_wrapper : UserRepository W
  user_repo_wrapper = user_cache_wrapper app.request_ends app.user_repo app.subs_cacher

  abbrev pub post_repo_wrapper : PostRepository W
  post_repo_wrapper = post_cache_wrapper app.post_repo app.post_cacher

  unfoldable pub v1_routes : List (Route W)
  v1_routes =
      record {
        method = "POST";
        path = "/auth/register";
        guard = free;
        handler = register app.uuids app.runtime user_repo_wrapper app.token_repo app.binding;
      }
      ∷ record {
        method = "POST";
        path = "/auth/login";
        guard = free;
        handler = login app.uuids app.runtime user_repo_wrapper app.token_repo app.binding;
      }
      ∷ record {
        method = "POST";
        path = "/auth/refresh";
        guard = refresh_only;
        handler = refresh app.uuids app.runtime app.token_repo;
      }
      ∷ record {
        method = "POST";
        path = "/auth/logout";
        guard = refresh_only;
        handler = logout app.uuids app.runtime app.token_repo;
      }
      ∷ record {
        method = "POST";
        path = "/post";
        guard = access;
        handler = send_post app.runtime post_repo_wrapper app.binding;
      }
      ∷ record {
        method = "DELETE";
        path = "/post/:post_id";
        guard = access;
        handler = delete_post_by_id app.uuids app.runtime post_repo_wrapper;
      }
      ∷ record {
        method = "GET";
        path = "/feed";
        guard = access;
        handler = get_posts app.feed_cacher post_repo_wrapper app.codec;
      }
      ∷ record {
        method = "GET";
        path = "/user/:user_id/posts";
        guard = free;
        handler = get_posts_by_user_id app.uuids post_repo_wrapper app.codec;
      }
      ∷ record {
        method = "POST";
        path = "/user/:author_id/subs";
        guard = access;
        handler = subscribe_to_author app.uuids user_repo_wrapper;
      }
      ∷ record {
        method = "DELETE";
        path = "/user/:author_id/subs";
        guard = access;
        handler = unsubscribe_from_author app.uuids user_repo_wrapper;
      }
      ∷ []

  unfoldable pub route_of : String → String → Option (Route W)
  unfolding v1_routes
  route_of method path =
      find? (λ (r : Route W). str_eq r.method method && str_eq r.path path) v1_routes

  -- `ErrorMiddleware` on the last error.
  unfoldable pub written : Error → List (ℕ × Payload)
  unfolding bodies_of
  written e = bodies_of (respond app.to_lower e)

  -- What is written, each time a status and a body; gin sends the first status. A panic is recovered by
  -- gin, past `ErrorMiddleware`.
  unfoldable pub answers : Result Reply → List (ℕ × Payload)
  unfolding written sent
  answers (err e) = written e
  answers (ok (reply status payload)) = sent status payload ∷ []
  answers (ok (error_and_reply e status payload)) = sent status payload ∷ written e
  answers (ok panics) = (500, empty) ∷ []

  run : Handler W → Request → W → List (ℕ × Payload) × W
  unfolding answers
  run handler req w = let (r, w') = handler req w in (answers r, w')

  -- What a middleware of `jwtMiddleware` sets, or the end of the request.
  through : Outcome → Incoming → Handler W → W → List (ℕ × Payload) × W
  unfolding run
  through (aborted status tag) inc handler w = ((status, error_tag tag) ∷ [], w)
  through (passed user_id jti) inc handler w =
      run handler (request_of inc (some (uuid_value user_id)) (jti_value jti)) w

  guarded : Guard → Incoming → Handler W → W → List (ℕ × Payload) × W
  unfolding run through
  guarded free inc handler w = run handler (request_of inc none none) w
  guarded access inc handler w = through (pass app.jwt inc.authorization) inc handler w
  guarded refresh_only inc handler w =
      through (pass_refresh app.jwt inc.authorization) inc handler w

  unfoldable pub serve : Route W → Incoming → W → List (ℕ × Payload) × W
  unfolding guarded
  serve route inc w = guarded route.guard inc route.handler w

-- A request to the route that gin found for its method and path.
pub record Call : Type 0 where
  pub method : String
  pub path : String
  pub incoming : Incoming

module _ {W : Type 0} (app : App W) where
  found_route : Option (Route W) → Incoming → W → List (ℕ × Payload) × W
  unfolding serve
  found_route none inc w = ((404, empty) ∷ [], w)
  found_route (some route) inc w = serve app route inc w

  unfoldable pub handle : Call → W → List (ℕ × Payload) × W
  unfolding found_route
  handle call w = found_route (route_of app call.method call.path) call.incoming w

  -- The state after some requests, one after the other.
  unfoldable pub handle_all : List Call → W → W
  handle_all [] w = w
  handle_all (call ∷ calls) w = handle_all calls (handle call w).1
