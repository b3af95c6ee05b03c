-- ===== src/Startup.antt =====
-- What main.go, config, internal/db and internal/telemetry start and stop. The libraries that they call
-- are seen from outside: every call is answered with success or an error, and the host has a journal of
-- what was opened, installed and closed.
pub mod Config
pub mod Telemetry
pub mod Process
use blog_go.Prelude.{ℕ, ◌+◌, Option, none, some, List, [], ◌∷◌, ◌++◌}
use blog_go.Errs.{Error}
use blog_go.Action.{Result, ok, err, Action}

pub data Resource : Type 0 where
  grpc_connection trace_provider metric_provider log_provider : Resource
  pool redis_client processors server : Resource

pub data Event : Type 0 where
  opened installed closed : Resource → Event

-- `answers n` is the error of the n-th call, or `none`; `shutdown_funcs` is the variable that the
-- closures of `SetupOTelSDK` share, each function by the resource that it closes.
pub record Host : Type 0 where
  pub journal : List Event
  pub shutdown_funcs : List Resource
  pub answers : ℕ → Option Error
  pub tick : ℕ

abbrev pub result_of : Option Error → Result (Unit {0})
result_of none = ok tt
result_of (some e) = err e

-- A call that opens and closes nothing.
abbrev pub call : Action Host (Unit {0})
call h = (result_of (h.answers h.tick), record h { tick = h.tick + 1 })

abbrev pub note : Event → Host → Host
note event h = record h { journal = h.journal ++ event ∷ [] }

abbrev pub note_if : Result (Unit {0}) → Event → Host → Host
note_if (ok _) event h = note event h
note_if (err e) event h = h

-- A constructor: what it opens is open only if it succeeds.
unfoldable pub create : Resource → Action Host (Unit {0})
create r h = let (result, h') = call h in (result, note_if result (opened r) h')

-- `Close` or `Shutdown`: the resource is closed also where it reports an error.
unfoldable pub close : Resource → Action Host (Unit {0})
close r h = let (result, h') = call h in (result, note (closed r) h')
