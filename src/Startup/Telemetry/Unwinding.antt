-- ===== src/Startup/Telemetry/Unwinding.antt =====
-- What `SetupOTelSDK` of internal/telemetry/setup.answered leaves open when it fails, and what its `shutdown`
-- closes when it succeeds.
use blog_go.Prelude.{
  ℕ, ◌+◌, suc, ◌≡◌, refl, sym, ap, ◌∙◌, ◌⊎◌, inl, inr, Option, none, some, List, [], ◌∷◌, ◌++◌, map,
  take, reverse,
}
use mathlib.Core.List.{append_assoc, append-nil}
use blog_go.Errs.{Error}
use blog_go.Action.{Result, ok, err}
use blog_go.Startup.{
  Resource, grpc_connection, trace_provider, metric_provider, log_provider, Event, opened,
  installed, closed, Host, note, note_if, result_of, create, close,
}
use blog_go.Startup.Telemetry.{
  Joined, close_all, shutdown, handle_err, or_handle, append_func, connect, provide, unless_partial,
  setup_otel_sdk,
}

abbrev pub telemetry : List Resource
telemetry = grpc_connection ∷ trace_provider ∷ metric_provider ∷ log_provider ∷ []

-- A provider is installed once it is made, the connection is only opened.
abbrev pub starting : Resource → List Event
starting grpc_connection = opened grpc_connection ∷ []
starting r = opened r ∷ installed r ∷ []

abbrev pub starting_all : List Resource → List Event
starting_all [] = []
starting_all (r ∷ rs) = starting r ++ starting_all rs

close_all-journal :
    (rs : List Resource) (h : Host) → (close_all rs h).1.journal ≡ h.journal ++ map closed rs
unfolding close_all close
close_all-journal [] h = sym (append-nil h.journal)
close_all-journal (r ∷ rs) h =
    close_all-journal rs (close r h).1 ∙ append_assoc h.journal (closed r ∷ []) (map closed rs)

-- `shutdown` closes what was registered, the last first, whatever the closings report, and a second
-- call closes nothing.
pub shutdown-journal :
    (h : Host)
    → ((shutdown h).1.journal ≡ h.journal ++ map closed (reverse h.shutdown_funcs))
      × ((shutdown h).1.shutdown_funcs ≡ [])
unfolding shutdown
shutdown-journal h = (close_all-journal (reverse h.shutdown_funcs) h, refl)

-- From `h`, the first `n` resources were opened and stand in the variable.
abbrev pub IsReached : ℕ → Host → Host → Type 0
IsReached n h h' =
    (h'.journal ≡ h.journal ++ starting_all (take n telemetry))
    × (h'.shutdown_funcs ≡ take n telemetry)

-- A failure after the first `n`: they are closed again, the last first.
abbrev pub IsUnwound : ℕ → Host → List Error × Host → Type 0
IsUnwound n h (errors, h') =
    ((e : Error) × (es : List Error) × (errors ≡ e ∷ es))
    × (h'.journal
        ≡ h.journal ++ starting_all (take n telemetry) ++ map closed (reverse (take n telemetry)))
    × (h'.shutdown_funcs ≡ [])

abbrev pub IsSetUp : Host → List Error × Host → Type 0
IsSetUp h (errors, h') = ((errors ≡ []) × IsReached 4 h h') ⊎ ((n : ℕ) × IsUnwound n h (errors, h'))

handle_err-IsUnwound :
    (n : ℕ) (h mid : Host) (e : Error) → IsReached n h mid → IsUnwound n h (handle_err e mid)
unfolding handle_err
handle_err-IsUnwound n h mid e (journal, funcs) =
    let (ended, empty) = shutdown-journal mid in
    (
      (e, _, refl),
      ended
          ∙ ap (λ j. j ++ map closed (reverse mid.shutdown_funcs)) journal
          ∙ ap (λ rs. h.journal ++ starting_all (take n telemetry) ++ map closed (reverse rs))
              funcs,
      empty,
    )

starting_all-append :
    (rs : List Resource) (r : Resource)
    → starting_all (rs ++ r ∷ []) ≡ starting_all rs ++ starting r
starting_all-append [] r = append-nil (starting r)
starting_all-append (q ∷ rs) r =
    ap (λ es. starting q ++ es) (starting_all-append rs r)
    ∙ sym (append_assoc (starting q) (starting_all rs) (starting r))

-- One more resource is opened behind the first `n`.
module _ (h : Host) (r : Resource) (n : ℕ) (next : Joined)
    (front : take (suc n) telemetry ≡ take n telemetry ++ r ∷ [])
    (more : (m : Host) → IsReached (suc n) h m → IsSetUp h (next m)) where
  reach :
      (mid m : Host)
      → IsReached n h mid
      → m.journal ≡ mid.journal ++ starting r
      → m.shutdown_funcs ≡ mid.shutdown_funcs ++ r ∷ []
      → IsReached (suc n) h m
  reach mid m (journal, funcs) added registered = (
    added
        ∙ ap (λ j. j ++ starting r) journal
        ∙ append_assoc h.journal _ _
        ∙ ap (λ es. h.journal ++ es) (sym (starting_all-append (take n telemetry) r))
        ∙ ap (λ rs. h.journal ++ starting_all rs) (sym front),
    registered ∙ ap (λ rs. rs ++ r ∷ []) funcs ∙ sym front,
  )

  provide-IsSetUp :
      starting r ≡ opened r ∷ installed r ∷ []
      → (mid : Host) → IsReached n h mid
      → IsSetUp h (provide r next mid)
  unfolding provide create or_handle
  provide-IsSetUp both mid reached = answered (mid.answers mid.tick)
    where
      m : Host
      m = record mid { tick = mid.tick + 1 }

      answered :
          (o : Option Error)
          → IsSetUp h (
              or_handle
                (result_of o)
                (λ m. next (note (installed r) (append_func r m)))
                (note_if (result_of o) (opened r) m))
      answered none = more (note (installed r) (append_func r (note (opened r) m))) (
          reach mid (note (installed r) (append_func r (note (opened r) m))) reached
            (append_assoc mid.journal (opened r ∷ []) (installed r ∷ [])
              ∙ ap (λ es. mid.journal ++ es) (sym both))
            refl)
      answered (some e) = inr (n, handle_err-IsUnwound n h m e reached)

module _ (h : Host) (next : Joined) (more : (m : Host) → IsReached 1 h m → IsSetUp h (next m)) where
  connect-IsSetUp : (mid : Host) → IsReached 0 h mid → IsSetUp h (connect next mid)
  unfolding connect create or_handle
  connect-IsSetUp mid reached = answered (mid.answers mid.tick)
    where
      m : Host
      m = record mid { tick = mid.tick + 1 }

      answered :
          (o : Option Error)
          → IsSetUp h (
              or_handle
                (result_of o)
                (λ m. next (append_func grpc_connection m))
                (note_if (result_of o) (opened grpc_connection) m))
      answered none =
          let m' = append_func grpc_connection (note (opened grpc_connection) m) in
          more m' (reach h grpc_connection 0 next refl more mid m' reached refl refl)
      answered (some e) = inr (0, handle_err-IsUnwound 0 h m e reached)

-- `SetupOTelSDK` opens and installs everything and registers it to be closed, without an error; or it
-- reports an error, has closed what it had opened, the last first and each once, and leaves nothing
-- registered. No function is registered before.
pub setup_otel_sdk-IsSetUp : (h : Host) → h.shutdown_funcs ≡ [] → IsSetUp h (setup_otel_sdk h)
unfolding setup_otel_sdk or_handle
setup_otel_sdk-IsSetUp h fresh = answered (unless_partial (result_of (h.answers h.tick)))
  where
    m : Host
    m = record h { tick = h.tick + 1 }

    reached : IsReached 0 h m
    reached = (sym (append-nil h.journal), fresh)

    end : Joined
    end h = ([], h)

    logs : Joined
    logs = provide log_provider end

    metrics : Joined
    metrics = provide metric_provider logs

    traces : Joined
    traces = provide trace_provider metrics

    logs-IsSetUp : (m : Host) → IsReached 3 h m → IsSetUp h (logs m)
    logs-IsSetUp = provide-IsSetUp h log_provider 3 end refl (λ m done. inl (refl, done)) refl

    metrics-IsSetUp : (m : Host) → IsReached 2 h m → IsSetUp h (metrics m)
    metrics-IsSetUp = provide-IsSetUp h metric_provider 2 logs refl logs-IsSetUp refl

    answered : (r : Result (Unit {0})) → IsSetUp h (or_handle r (connect traces) m)
    answered (err e) = inr (0, handle_err-IsUnwound 0 h m e reached)
    answered (ok _) =
        connect-IsSetUp h traces
          (provide-IsSetUp h trace_provider 1 metrics refl metrics-IsSetUp refl) m reached
