-- ===== src/Startup/Telemetry.antt =====
-- internal/telemetry/setup.go. An error that `errors.Join` made is the list of the errors in it, and
-- `nil` the empty list. The options of the exporters and providers, and what they export, are left out.
pub mod Unwinding
use blog_go.Prelude.{not, ◌&&◌, none, some, List, [], ◌∷◌, ◌++◌, reverse, if◌then◌else◌}
use blog_go.Errs.{Error, is, err_partial_resource}
use blog_go.Action.{Result, ok, err, Action}
use blog_go.Startup.{
  Resource, grpc_connection, trace_provider, metric_provider, log_provider, Event, installed, Host,
  call, note, create, close,
}

-- An action that reports a joined error.
abbrev pub Joined : Type 0
Joined = Host → List Error × Host

abbrev pub joined : Result (Unit {0}) → List Error
joined (ok _) = []
joined (err e) = e ∷ []

-- `for _, fn := range shutdownFuncs { err = errors.Join(err, fn(ctx)) }`
unfoldable pub close_all : List Resource → Joined
unfolding close
close_all [] h = ([], h)
close_all (r ∷ rs) h =
    let (result, h') = close r h in
    let (errors, h'') = close_all rs h' in (joined result ++ errors, h'')

unfoldable pub shutdown : Joined
unfolding close_all
shutdown h =
    let (errors, h') = close_all (reverse h.shutdown_funcs) h in
    (errors, record h' { shutdown_funcs = [] })

unfoldable pub handle_err : Error → Joined
unfolding shutdown
handle_err in_err h = let (errors, h') = shutdown h in (in_err ∷ errors, h')

-- `if err != nil { handleErr(err); return }`
unfoldable pub or_handle : Result (Unit {0}) → Joined → Joined
unfolding handle_err
or_handle (ok _) next h = next h
or_handle (err e) next h = handle_err e h

-- `shutdownFuncs = append(shutdownFuncs, …)`
abbrev pub append_func : Resource → Host → Host
append_func r h = record h { shutdown_funcs = h.shutdown_funcs ++ r ∷ [] }

unfoldable pub connect : Joined → Joined
unfolding or_handle create
connect next h =
    let (result, h') = create grpc_connection h in
    or_handle result (λ h. next (append_func grpc_connection h)) h'

-- A provider is made over its exporter, the one call of the two that can fail, and then installed.
unfoldable pub provide : Resource → Joined → Joined
unfolding or_handle create
provide provider next h =
    let (result, h') = create provider h in
    or_handle result (λ h. next (note (installed provider) (append_func provider h))) h'

-- `err != nil && !errors.Is(err, resource.ErrPartialResource)`
unfoldable pub unless_partial : Result (Unit {0}) → Result (Unit {0})
unless_partial (ok _) = ok tt
unless_partial (err e) = if is e err_partial_resource then ok tt else err e

unfoldable pub setup_otel_sdk : Joined
unfolding or_handle connect provide unless_partial
setup_otel_sdk h =
    let (result, h') = call h in
    or_handle (unless_partial result)
      (connect
        (provide trace_provider (provide metric_provider (provide log_provider (λ h. ([], h))))))
      h'
