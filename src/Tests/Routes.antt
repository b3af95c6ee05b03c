-- ===== src/Tests/Routes.antt =====
-- Requests to the routes of internal/routes/routes.go on a small database, with empty caches.
use blog_go.Prelude.{
  ◌≡◌, ◌≢◌, refl, ℕ, ◌+◌, ◌-◌, ◌⊎◌, suc, Text, codes, none, false, List, [], ◌∷◌, arith,
}
use text.Mathlib.Text.{◌==◌ as str_eq}
use blog_go.Database.{OutboxRow, post_added, served}
use blog_go.Database.Outbox.Pending.{waiting}
use blog_go.Routes.Outbox.{cycles}
use blog_go.Routes.Outbox.Deliveries.{FeedsAnswer}
use blog_go.Routes.Outbox.Drained.{cycles-waiting}
use blog_go.Tests.Fixtures.{start_tables, db_with, post}
use blog_go.Errs.{Error, other}
use blog_go.Action.{ok, err}
use blog_go.Models.{TokenPair}
use blog_go.Database.Tokens.{add_refresh_token, delete_refresh_token}
use blog_go.Repositories.Tokens.{token_repository, try_to_delete_token, add_token}
use blog_go.Services.{Runtime}
use blog_go.Services.Auth.{sign_jwt, rotate_jwt, logout_by_refresh}
use blog_go.Middleware.Jwt.Issued.{bearer}
use blog_go.Handles.Context.{token_pair, empty, error_tag, get_user_id, get_jti, value_or}
use blog_go.Handles.Auth.{refresh, logout}
use blog_go.Routes.{
  App, Route, refresh_only, Incoming, Call, v1_routes, route_of, serve, written, bodies_of, answers,
  handle, handle_all, only,
}
use blog_go.Routes.World.{World, Parts, world_app, world_tokens, world_runtime, in_db, in_machine}
use blog_go.Routes.Access.{serve-Admits, TurnsAway, Admits}
use blog_go.Routes.Replay.{
  refresh_call, logout_call, handle-refresh_never_again, handle-logout_never_again,
}
use blog_go.Tests.Fixtures.{actions, uuid_text, start_db}
use blog_go.Tests.Middleware.{library, checks}

-- The machine counts the identifiers that it has drawn.
abbrev pub machine : Runtime ℕ
machine = record {
  now = λ n. (ok 5_000_000_000, n);
  new_uuid = λ n. (ok (n + 100), suc n);
  create_hash = λ password n. (ok password, n);
  compare_password_and_hash = λ password hash. ok (str_eq password hash);
  sign = λ claims. ok claims.token_type;
}

abbrev pub down : Error
down = other "redis is down"

abbrev pub parts_over : (R : Type 0) → Parts R ℕ
parts_over R = record {
  feed_cacher = record {
    push_to_feeds = λ id at subs r. (ok tt, r);
    remove_from_feeds = λ id at subs r. (ok tt, r);
    get_feed_posts_ids = λ id cursor limit r. (ok [], r);
  };
  subs_cacher = record {
    subscribe_user_to = λ who whom r. (err down, r);
    unsubscribe_user_from = λ who whom r. (err down, r);
    follow_list_exists = λ id r. (err down, r);
    set_follows = λ id subs r. (err down, r);
    get_follows = λ id r. (err down, r);
  };
  post_cacher = record {
    add_post = λ post r. (err down, r);
    add_posts = λ posts r. (err down, r);
    remove_post_by_id = λ id at r. (err down, r);
    get_posts_with_ids = λ ids r. (err down, r);
  };
  runtime = machine;
  uuids = uuid_text;
  jwt = library;
  binding = record {
    register_info = λ body. err down;
    login_info = λ body. ok (record { login = body; email = ""; password = "h" });
    post_request = λ body. err down;
  };
  codec = record {
    marshal = λ c. ok [];
    unmarshal = λ bytes. err down;
    encode_to_string = λ bytes. "e30=";
    decode_string = λ text. ok [];
    atoi = λ text. ok 10;
  };
  to_lower = λ s. s;
  request_ends = none;
}

abbrev parts : Parts (Unit {0}) ℕ
parts = parts_over (Unit {0})

abbrev world : World (Unit {0}) ℕ
world = record { db = start_db; redis = tt; machine = 0 }

abbrev with_token : Text → Incoming
with_token token = record {
  authorization = bearer token;
  param = λ name. "";
  query = λ name. none;
  body = "";
}

requests : Unit {0}
unfolding actions checks handle handle_all route_of v1_routes serve answers written bodies_of
    refresh logout get_user_id get_jti value_or sign_jwt rotate_jwt logout_by_refresh
    token_repository world_tokens world_runtime in_db in_machine try_to_delete_token add_token
    add_refresh_token delete_refresh_token
requests = tt

abbrev pair : TokenPair
pair = record { access_token = "auth"; refresh_token = "refresh" }

abbrev inc : Incoming
inc = with_token (codes "r")

abbrev app : App (World (Unit {0}) ℕ)
app = world_app parts

refresh_tests :
    ((handle app (refresh_call inc) world).0 ≡ only 200 (token_pair pair))
    × ((handle app (refresh_call (with_token (codes "a"))) world).0
        ≡ only 401 (error_tag "unauthorized"))
    × ((handle app (logout_call inc) world).0 ≡ only 204 empty)
    × ((handle app (record { method = "GET"; path = "/"; incoming = inc }) world).0
        ≡ only 404 empty)
unfolding requests
refresh_tests = (refl, refl, refl, refl)

fresh : (n : ℕ) → (machine.new_uuid n).0 ≢ ok 7
fresh n = λ e. ground arith

abbrev refreshed : World (Unit {0}) ℕ
refreshed = (handle app (refresh_call inc) world).1

abbrev logged_out : World (Unit {0}) ℕ
logged_out = (handle app (logout_call inc) world).1

abbrev calls : List Call
calls =
    record { method = "POST"; path = "/auth/login"; incoming = inc }
    ∷ logout_call inc
    ∷ record { method = "GET"; path = "/feed"; incoming = with_token (codes "a") }
    ∷ []

handle-refresh_never_again_example :
    (handle app (refresh_call inc) (handle_all app calls refreshed)).0 ≢ only 200 (token_pair pair)
unfolding requests
handle-refresh_never_again_example =
    handle-refresh_never_again parts 7 fresh inc inc 1 1 refl refl world calls pair pair refl

handle-logout_never_again_example :
    (handle app (refresh_call inc) (handle_all app calls logged_out)).0 ≢ only 200 (token_pair pair)
unfolding requests
handle-logout_never_again_example =
    handle-logout_never_again parts 7 fresh inc inc 1 1 refl refl world calls pair refl

abbrev logout_route : Route (World (Unit {0}) ℕ)
logout_route = record {
  method = "POST";
  path = "/auth/logout";
  guard = refresh_only;
  handler = logout uuid_text (world_runtime parts) world_tokens;
}

serve-Admits_example : TurnsAway app inc world logout_route ⊎ Admits app inc world logout_route
unfolding requests
serve-Admits_example = serve-Admits app inc world "POST" "/auth/logout" logout_route refl refl

abbrev event_at : ℕ → OutboxRow
event_at id = record {
  id = id;
  message_type = post_added;
  payload = post;
  created_at = 10 - id;
  processed_at = record { time = 0; valid = false };
}

abbrev busy_world : World (Unit {0}) ℕ
busy_world = record world {
  db = db_with (record start_tables { outbox = event_at 1 ∷ event_at 2 ∷ [] }) (λ n. served);
}

feeds-FeedsAnswer : FeedsAnswer parts
feeds-FeedsAnswer = record { push = λ id at subs r. refl; remove = λ id at subs r. refl }

cycles-waiting_example : waiting (cycles parts 1 2 busy_world).db.tables ≡ []
cycles-waiting_example =
    cycles-waiting parts feeds-FeedsAnswer 1 (omega arith) (omega arith) 2 busy_world
      ((λ n. refl), refl) (omega arith)
