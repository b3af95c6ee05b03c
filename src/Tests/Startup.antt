-- ===== src/Tests/Startup.antt =====
-- Starts and ends of the program with failing calls.
use text.Mathlib.Text.{◌==◌ as str_eq}
use blog_go.Prelude.{ℕ, ◌≡◌, refl, ◌==◌, none, some, [], ◌∷◌, String, arith, if◌then◌else◌}
use blog_go.Errs.{other}
use blog_go.Action.{ok}
use blog_go.Startup.{
  Host, create, close, opened, closed, installed, grpc_connection, trace_provider,
}
use blog_go.Startup.Config.{
  System, ed25519, load, load_sized, load_keyed, config, get_env, from_string_to_private_key,
  read_block, read_key,
}
use blog_go.Startup.Config.Checks.{IsLoaded, load-IsLoaded}
use blog_go.Startup.Telemetry.{
  setup_otel_sdk, or_handle, connect, provide, unless_partial, handle_err, shutdown, close_all,
}
use blog_go.Startup.Process.{
  main, with_config, with_telemetry, stop, died, interrupted, exit_status,
}
use blog_go.Startup.Process.Release.{IsReleased, main-IsReleased}
use blog_go.Startup.Process.Status.{stop-exit_status, stop-lost}

abbrev environment : String → String
environment key =
    if str_eq key "DATABASE_URL"
    then "postgres://db"
    else if str_eq key "JWT_SECRET"
    then "pem"
    else ""

abbrev system : System (Unit {0}) (Unit {0})
system = record {
  getenv = environment;
  parse_uint = λ s. ok 65536;
  pem_decode = λ s. some [];
  parse_pkcs8 = λ bytes. ok (ed25519 tt);
  public_of = λ key. key;
  num_cpu = 256;
}

-- The call with the number fails.
abbrev host : ℕ → Host
host n = record {
  journal = [];
  shutdown_funcs = [];
  answers = λ k. if k == n then some (other "refused") else none;
  tick = 0;
}

load-IsLoaded_example : IsLoaded system (config system 65536 tt)
unfolding load load_sized load_keyed config get_env from_string_to_private_key read_block read_key
load-IsLoaded_example = load-IsLoaded system (config system 65536 tt) (λ s n h. ground arith) refl

-- 256 processors leave no thread for argon2id.
no_threads : (config system 65536 tt).hash_params.parallelism ≡ 0
unfolding config
no_threads = refl

-- The provider of metrics cannot be made.
main_test : main system interrupted (host 3) ≡ (
  1,
  record (host 3) {
    journal =
        opened grpc_connection
        ∷ opened trace_provider
        ∷ installed trace_provider
        ∷ closed trace_provider
        ∷ closed grpc_connection
        ∷ [];
    tick = 6;
  },
)
unfolding main with_config with_telemetry load load_sized load_keyed config get_env
    from_string_to_private_key read_block read_key setup_otel_sdk or_handle connect provide
    unless_partial handle_err shutdown close_all create close
main_test = refl

main-IsReleased_example : IsReleased (host 3) (main system interrupted (host 3))
main-IsReleased_example = main-IsReleased system interrupted (host 3) refl

stop-exit_status_example : exit_status (stop interrupted (host 2)).0 ≡ 0
stop-exit_status_example = stop-exit_status interrupted (host 2)

stop-lost_example : stop (died (other "port")) (host 0) ≡ stop interrupted (host 0)
stop-lost_example = stop-lost (other "port") (other "refused") (host 0) refl
