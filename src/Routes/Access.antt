-- ===== src/Routes/Access.antt =====
-- Who gets through to the handlers of internal/routes/routes.go.
use text.Mathlib.Text.{◌==◌ as str_eq}
use blog_go.Prelude.{
  ◌≡◌, refl, ◌⊎◌, inl, inr, String, Bool, false, ◌&&◌, ◌||◌, some, [], ◌∷◌, All, find?-All,
  if◌then◌else◌, arith,
}
use blog_go.Models.{Uuid}
use blog_go.Services.{auth_type, refresh_type}
use blog_go.Middleware.Jwt.Kinds.{Carries}
use blog_go.Middleware.Jwt.Outcomes.{pass-cases, pass_refresh-cases}
use blog_go.Handles.Context.{error_tag}
use blog_go.Routes.{
  App, access, refresh_only, Route, Incoming, v1_routes, route_of, through, guarded, serve,
}

-- The routes that need no token, and the kind of token that each other one needs.
abbrev pub is_public : String → Bool
is_public path =
    str_eq path "/auth/register" || str_eq path "/auth/login" || str_eq path "/user/:user_id/posts"

abbrev pub kind_of : String → String
kind_of path =
    if str_eq path "/auth/refresh" || str_eq path "/auth/logout" then refresh_type else auth_type

-- A guard lets a request with its kind of token through, or ends it with status 401.
module _ {W : Type 0} (app : App W) (inc : Incoming) (w : W) (route : Route W) where
  abbrev pub Admits : Type 0
  Admits = (user_id : Uuid) × Carries app.jwt (kind_of route.path) inc.authorization user_id

  abbrev pub TurnsAway : Type 0
  TurnsAway = (tag : String) × (serve app route inc w ≡ ((401, error_tag tag) ∷ [], w))

  access-Admits : route.guard ≡ access → kind_of route.path ≡ auth_type → TurnsAway ⊎ Admits
  unfolding serve guarded through
  access-Admits guard kind = elim (pass-cases app.jwt inc.authorization) [
    | inl (tag, out) ↦ inl (tag, ground arith)
    | inr (id, jti, out, carried) ↦ inr (id, rw kind carried)
  ]

  refresh_only-Admits :
      route.guard ≡ refresh_only → kind_of route.path ≡ refresh_type → TurnsAway ⊎ Admits
  unfolding serve guarded through
  refresh_only-Admits guard kind = elim (pass_refresh-cases app.jwt inc.authorization) [
    | inl (tag, out) ↦ inl (tag, ground arith)
    | inr (id, jti, out, carried) ↦ inr (id, rw kind carried)
  ]

module _ {W : Type 0} (app : App W) (inc : Incoming) (w : W) where
  routes-Admits :
      All
        (λ r. is_public r.path ≡ false → TurnsAway app inc w r ⊎ Admits app inc w r)
        (v1_routes app)
  unfolding v1_routes
  routes-Admits = (
    λ h. absurd (ground arith),
    (
      λ h. absurd (ground arith),
      (
        λ h. refresh_only-Admits app inc w _ refl refl,
        (
          λ h. refresh_only-Admits app inc w _ refl refl,
          (
            λ h. access-Admits app inc w _ refl refl,
            (
              λ h. access-Admits app inc w _ refl refl,
              (
                λ h. access-Admits app inc w _ refl refl,
                (
                  λ h. absurd (ground arith),
                  (
                    λ h. access-Admits app inc w _ refl refl,
                    (λ h. access-Admits app inc w _ refl refl, tt),
                  ),
                ),
              ),
            ),
          ),
        ),
      ),
    ),
  )

  -- A request to a route that is not public is answered with status 401 and changes nothing, or its
  -- header carries a valid token: a refresh token for a refresh or a logout, an access token for every
  -- other route.
  pub serve-Admits :
      (method path : String) (route : Route W)
      → route_of app method path ≡ some route
      → is_public route.path ≡ false
      → TurnsAway app inc w route ⊎ Admits app inc w route
  unfolding route_of
  serve-Admits method path route found =
      find?-All (λ r. is_public r.path ≡ false → TurnsAway app inc w r ⊎ Admits app inc w r)
        (λ r. str_eq r.method method && str_eq r.path path) (v1_routes app) routes-Admits route
        found
