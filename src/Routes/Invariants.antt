-- ===== src/Routes/Invariants.antt =====
-- Every request to every route of internal/routes/routes.go keeps what the parts of the application
-- keep.
use text.Mathlib.Text.{◌==◌ as str_eq}
use blog_go.Prelude.{ℕ, ◌≡◌, refl, String, ◌&&◌, Option, none, some, List, [], ◌∷◌, All, find?-All}
use blog_go.Action.Keeps.{Keeps}
use blog_go.Models.{Uuid, PostPaginationCursor}
use blog_go.Repositories.Invariants.{
  UsersKeep, PostsKeep, SubsCacheKeeps, PostCacheKeeps, RuntimeKeeps,
}
use blog_go.Repositories.UserCache.Invariants.{user_cache_wrapper-UsersKeep}
use blog_go.Repositories.PostCache.Invariants.{post_cache_wrapper-PostsKeep}
use blog_go.Middleware.Jwt.{Outcome, aborted, passed, pass, pass_refresh}
use blog_go.Handles.Context.{Request, Handler}
use blog_go.Handles.Invariants.{
  TokensKeep, register-Keeps, login-Keeps, refresh-Keeps, logout-Keeps, send_post-Keeps,
  delete_post_by_id-Keeps, get_posts_by_user_id-Keeps, get_posts-Keeps, subscribe_to_author-Keeps,
  unsubscribe_from_author-Keeps,
}
use blog_go.Routes.{
  App, Guard, free, access, refresh_only, Route, Incoming, v1_routes, route_of, run, through,
  guarded, serve, Call, found_route, handle, handle_all, user_repo_wrapper, post_repo_wrapper,
}

-- The repositories, the caches and the token services keep an invariant.
pub record AppKeeps {W : Type 0} (P : W → Type 0) (app : App W) : Type 0 where
  pub users : UsersKeep P app.user_repo
  pub posts : PostsKeep P app.post_repo
  pub feeds :
      (id : Uuid) (cursor : Option PostPaginationCursor) (limit : ℕ)
      → Keeps P (app.feed_cacher.get_feed_posts_ids id cursor limit)
  pub subs : SubsCacheKeeps P app.subs_cacher
  pub cached : PostCacheKeeps P app.post_cacher
  pub runtime : RuntimeKeeps P app.runtime
  pub tokens : TokensKeep P app.uuids app.runtime app.token_repo

module _ {W : Type 0} {P : W → Type 0} (app : App W) where
  through-Keeps :
      (o : Outcome) (inc : Incoming) (handler : Handler W)
      → ((req : Request) → Keeps P (handler req))
      → (w : W) → P w
      → P (through app o inc handler w).1
  unfolding through run
  through-Keeps (aborted status tag) inc handler keeps w h = h
  through-Keeps (passed id jti) inc handler keeps w h = (keeps _).at w h

  guarded-Keeps :
      (guard : Guard) (inc : Incoming) (handler : Handler W)
      → ((req : Request) → Keeps P (handler req))
      → (w : W) → P w
      → P (guarded app guard inc handler w).1
  unfolding guarded run
  guarded-Keeps free inc handler keeps w h = (keeps _).at w h
  guarded-Keeps access inc handler keeps w h = through-Keeps (pass app.jwt _) inc handler keeps w h
  guarded-Keeps refresh_only inc handler keeps w h =
      through-Keeps (pass_refresh app.jwt _) inc handler keeps w h

  module _ (k : AppKeeps P app) where
    accounts : UsersKeep P (user_repo_wrapper app)
    accounts = user_cache_wrapper-UsersKeep app.request_ends k.users k.subs

    published : PostsKeep P (post_repo_wrapper app)
    published = post_cache_wrapper-PostsKeep k.posts k.cached

    routes-Keeps : All (λ (r : Route W). (req : Request) → Keeps P (r.handler req)) (v1_routes app)
    unfolding v1_routes
    routes-Keeps = (
      λ req. register-Keeps _ req k.runtime accounts k.tokens,
      (
        λ req. login-Keeps _ req k.runtime accounts k.tokens,
        (
          λ req. refresh-Keeps app.binding req k.runtime accounts k.tokens,
          (
            λ req. logout-Keeps app.binding req k.runtime accounts k.tokens,
            (
              λ req. search (send_post-Keeps, k.runtime, published),
              (
                λ req. search (delete_post_by_id-Keeps, k.runtime, published),
                (
                  λ req. search (get_posts-Keeps, k.runtime, published, k.feeds),
                  (
                    λ req. search (get_posts_by_user_id-Keeps, k.runtime, published),
                    (
                      λ req. search (subscribe_to_author-Keeps, k.runtime, accounts),
                      (λ req. search (unsubscribe_from_author-Keeps, k.runtime, accounts), tt),
                    ),
                  ),
                ),
              ),
            ),
          ),
        ),
      ),
    )

    pub serve-Keeps :
        (method path : String) (route : Route W) (inc : Incoming)
        → route_of app method path ≡ some route
        → (w : W) → P w
        → P (serve app route inc w).1
    unfolding route_of serve
    serve-Keeps method path route inc found w h =
        guarded-Keeps route.guard inc route.handler
          (find?-All (λ r. (req : Request) → Keeps P (r.handler req))
            (λ r. str_eq r.method method && str_eq r.path path) (v1_routes app) routes-Keeps route
            found)
          w h

    found_route-Keeps :
        (method path : String) (found : Option (Route W)) (inc : Incoming)
        → route_of app method path ≡ found
        → (w : W) → P w
        → P (found_route app found inc w).1
    unfolding found_route
    found_route-Keeps method path none inc e w h = h
    found_route-Keeps method path (some route) inc e w h = serve-Keeps method path route inc e w h

    pub handle-Keeps : (call : Call) → (w : W) → P w → P (handle app call w).1
    unfolding handle
    handle-Keeps call w h = found_route-Keeps call.method call.path _ call.incoming refl w h

    pub handle_all-Keeps : (calls : List Call) (w : W) → P w → P (handle_all app calls w)
    unfolding handle_all
    handle_all-Keeps [] w h = h
    handle_all-Keeps (call ∷ calls) w h = handle_all-Keeps calls _ (handle-Keeps call w h)
