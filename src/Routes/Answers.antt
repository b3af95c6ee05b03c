-- ===== src/Routes/Answers.antt =====
-- The answers of the routes of internal/routes/routes.go.
use text.Mathlib.Text.{◌==◌ as str_eq}
use blog_go.Prelude.{ℕ, Bool, true, ◌≡◌, ◌⊎◌, String, ◌||◌, some, List, [], ◌∷◌, if◌then◌else◌}
use blog_go.Errs.{Error, wrap}
use blog_go.Action.{Action, err}
use blog_go.Models.{Post, PostPaginationCursor, Uuid}
use blog_go.Handles.Context.{Request, Payload, Reply, page, error_tag, uuid_value}
use blog_go.Handles.Replies.{IsReply, IsCutOff, Replies}
use blog_go.Routes.{App, Route, Incoming, sent, written, serve}

-- The status of a success, as the code has it; the API docs in the comments of the handlers say 200 for a
-- registration and 204 for a subscription and its removal.
abbrev pub success_of : String → ℕ
success_of path =
    if str_eq path "/auth/register"
    then 201
    else if str_eq path "/auth/logout" || str_eq path "/post/:post_id"
    then 204
    else 200

abbrev is_pages : String → Bool
is_pages path = str_eq path "/user/:user_id/posts"

module _ {W : Type 0} (app : App W) (inc : Incoming) (w : W) where
  -- What the handler of a route replies with.
  abbrev IsAnswer : String → Reply → Type 0
  IsAnswer path r = IsReply (success_of path) r ⊎ ((is_pages path ≡ true) × IsCutOff app.codec r)

  -- One answer with the status of the route's success, or what `ErrorMiddleware` writes for an error; or,
  -- for an author's page whose cursor `json.Marshal` refuses, the page without a cursor and what is written
  -- for that error behind it.
  abbrev pub Answered : String → List (ℕ × Payload) → Type 0
  Answered path bodies =
      ((p : Payload) × (bodies ≡ sent (success_of path) p ∷ []))
      ⊎ ((e : Error) × (bodies ≡ written app e))
      ⊎ ((is_pages path ≡ true)
          × ((c : PostPaginationCursor) × (e : Error) × (posts : List Post) × (app.codec.marshal c
                ≡ err e)
              × (bodies
                  ≡ (200, page (record { posts = posts; cursor = "" }))
                    ∷ written app (wrap "could not marshal cursor" e))))

  -- The handlers of a route with a guard may use that the middleware has set the user's identifier.
  abbrev RepliesBehind : Route W → Type 0
  RepliesBehind route =
      (req : Request) (user_id : Uuid)
      → req.user_id ≡ some (uuid_value user_id)
      → Replies (IsAnswer route.path) (route.handler req)

  abbrev pub RouteAnswered : Route W → Type 0
  RouteAnswered route =
      Answered route.path (serve app route inc w).0
      ⊎ ((tag : String) × ((serve app route inc w).0 ≡ (401, error_tag tag) ∷ []))
