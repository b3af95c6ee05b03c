-- ===== src/Startup/Process.antt =====
-- main.go and internal/db/db.go: the start of the program, its end, and its exit status. The wrapper of
-- a joined error is put on each of the errors in it. The deadline of 5 seconds of each closing is one of
-- the errors that it can be answered with.
pub mod Release
pub mod Status
use text.Mathlib.Text.{◌==◌ as str_eq}
use blog_go.Prelude.{ℕ, List, [], ◌∷◌, ◌++◌, map, String, if◌then◌else◌}
use blog_go.Errs.{Error, wrap}
use blog_go.Action.{Result, ok, err, Action, ◌>>=◌, ◌>>◌, map_err}
use blog_go.Startup.{
  pool, redis_client, processors, server, opened, closed, Host, call, note, create, close,
}
use blog_go.Startup.Config.{Config, System, load}
use blog_go.Startup.Telemetry.{Joined, joined, setup_otel_sdk, shutdown}

-- `db.Load`: the URL of the database, the pool, the URL of Redis, the client and its tracing.
unfoldable pub load_db : Action Host (Unit {0})
unfolding create
load_db = call >> (create pool >> (call >> (λ h. call (note (opened redis_client) h))))

-- `Database.Close`
unfoldable pub close_database : Action Host (Unit {0})
unfolding close
close_database h = close redis_client (note (closed pool) h)

unfoldable pub close_server : Action Host (Unit {0})
unfolding close
close_server = map_err (wrap "server shutdown") (close server)

unfoldable pub close_otel : Joined
unfolding shutdown
close_otel h = let (errors, h') = shutdown h in (map (wrap "telemetry shutdown") errors, h')

abbrev pub close_processors : Host → Host
close_processors = note (closed processors)

unfoldable pub close_db : Action Host (Unit {0})
unfolding close_database
close_db = map_err (wrap "database close") close_database

-- What the `select` of `main` receives: a signal, or the error of a server that died.
pub data Ending : Type 0 where
  interrupted : Ending
  died : Error → Ending

unfoldable pub ending_errors : Ending → List Error
ending_errors interrupted = []
ending_errors (died e) = e ∷ []

-- `shutdownErr = err`: the error of `closeServer` takes the place of what was there.
unfoldable pub replace : List Error → Result (Unit {0}) → List Error
replace before (ok _) = before
replace before (err e) = e ∷ []

-- `shutdownErr` at the end.
unfoldable pub stop : Ending → Joined
unfolding close_server close_otel close_db ending_errors replace
stop ending h =
    let (server_result, h1) = close_server h in
    let (otel_errors, h2) = close_otel h1 in
    let (db_result, h3) = close_db (close_processors h2) in
    (replace (ending_errors ending) server_result ++ otel_errors ++ joined db_result, h3)

-- `CreateRouter` starts the processors and `launchServer` the server.
abbrev pub launch : Host → Host
launch h = note (opened server) (note (opened processors) h)

unfoldable pub exit_status : List Error → ℕ
exit_status [] = 0
exit_status (e ∷ es) = 1

-- The rest of `main`, behind each start that can fail; `log.Fatal` ends with status 1.
unfoldable pub serve_until : Ending → Result (Unit {0}) → Host → ℕ × Host
unfolding close_otel stop exit_status
serve_until ending (err e) h = let (_, h') = close_otel h in (1, h')
serve_until ending (ok _) h = let (errors, h') = stop ending (launch h) in (exit_status errors, h')

unfoldable pub with_telemetry : Ending → List Error → Host → ℕ × Host
unfolding serve_until load_db
with_telemetry ending (e ∷ es) h = (1, h)
with_telemetry ending [] h = let (result, h') = load_db h in serve_until ending result h'

unfoldable pub with_config : {K P : Type 0} → Ending → Result (Config K P) → Host → ℕ × Host
unfolding with_telemetry setup_otel_sdk
with_config ending (err e) h = (1, h)
with_config ending (ok cfg) h =
    let (errors, h') = setup_otel_sdk h in with_telemetry ending errors h'

unfoldable pub main : {K P : Type 0} → System K P → Ending → Host → ℕ × Host
unfolding with_config load
main system ending h = with_config ending (load system) h

-- `launchServer`: the host and the port of the server's address.
unfoldable pub server_address : {K P : Type 0} → Config K P → String × String
server_address cfg =
    let address = if str_eq cfg.is_release "1" then "0.0.0.0" else cfg.server_dev_address in
    (address, cfg.server_port)
