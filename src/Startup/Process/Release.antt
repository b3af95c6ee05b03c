-- ===== src/Startup/Process/Release.antt =====
-- What main.go opens and closes again, however it ends.
use blog_go.Prelude.{
  ℕ, suc, ◌+◌, ◌≡◌, refl, sym, ap, ◌∙◌, ◌⊎◌, inl, inr, Option, none, some, List, [], ◌∷◌, ◌++◌, map,
  take, reverse, arith,
}
use mathlib.Core.List.{append_assoc, append-nil}
use blog_go.Errs.{Error}
use blog_go.Action.{Result, Action, continue, fail, ok, err, ◌>>=◌, ◌>>◌}
use blog_go.Action.Laws.{map_err-state}
use blog_go.Startup.{
  Resource, pool, redis_client, processors, server, Event, opened, closed, Host, call, note,
  note_if, create, close, result_of,
}
use blog_go.Startup.Config.{Config, System, load}
use blog_go.Startup.Telemetry.Unwinding.{
  telemetry, starting_all, IsReached, IsSetUp, shutdown-journal, setup_otel_sdk-IsSetUp,
}
use blog_go.Startup.Process.{
  load_db, close_database, close_server, close_otel, close_db, Ending, stop, launch, serve_until,
  with_telemetry, with_config, main,
}

abbrev pub connections : List Event
connections = opened pool ∷ opened redis_client ∷ []

-- `db.Load` opened both connections, or fails with the first `k` of them open.
abbrev pub IsConnected : Host → Result (Unit {0}) × Host → Type 0
IsConnected h (result, h') =
    (h'.shutdown_funcs ≡ h.shutdown_funcs)
    × (((result ≡ ok tt) × (h'.journal ≡ h.journal ++ connections))
        ⊎ ((e : Error) × (k : ℕ) × (result ≡ err e)
            × (h'.journal ≡ h.journal ++ take k connections)))

-- The first `k` connections are open.
abbrev IsOpened : ℕ → Host → Host → Type 0
IsOpened k h mid =
    (mid.shutdown_funcs ≡ h.shutdown_funcs) × (mid.journal ≡ h.journal ++ take k connections)

module _ (h : Host) where
  fails : (k : ℕ) (e : Error) (mid : Host) → IsOpened k h mid → IsConnected h (err e, mid)
  fails k e mid (funcs, journal) = (funcs, inr (e, k, refl, journal))

  connected : (mid : Host) → IsOpened 2 h mid → IsConnected h (ok tt, mid)
  connected mid (funcs, journal) = (funcs, inl (refl, journal))

  opened_next :
      (k : ℕ) (r : Resource) (mid : Host)
      → take (suc k) connections ≡ take k connections ++ opened r ∷ []
      → IsOpened k h mid
      → IsOpened (suc k) h (note (opened r) mid)
  opened_next k r mid one (funcs, journal) = (
    funcs,
    ap (λ j. j ++ opened r ∷ []) journal
        ∙ append_assoc h.journal _ _
        ∙ ap (λ es. h.journal ++ es) (sym one),
  )

  module _ (rest : Action Host (Unit {0})) (mid : Host) where
    call-IsConnected :
        (k : ℕ)
        → IsOpened k h mid
        → ((m : Host) → IsOpened k h m → IsConnected h (rest m))
        → IsConnected h ((call >> rest) mid)
    unfolding ◌>>=◌
    call-IsConnected k (funcs, journal) more = answered (mid.answers mid.tick)
      where
        m : Host
        m = record mid { tick = mid.tick + 1 }

        answered : (o : Option Error) → IsConnected h (continue (result_of o) (λ _. rest) fail m)
        answered none = more m (funcs, journal)
        answered (some e) = fails k e m (funcs, journal)

    create-IsConnected :
        (k : ℕ) (r : Resource)
        → take (suc k) connections ≡ take k connections ++ opened r ∷ []
        → IsOpened k h mid
        → ((m : Host) → IsOpened (suc k) h m → IsConnected h (rest m))
        → IsConnected h ((create r >> rest) mid)
    unfolding create ◌>>=◌
    create-IsConnected k r one (funcs, journal) more = answered (mid.answers mid.tick)
      where
        m : Host
        m = record mid { tick = mid.tick + 1 }

        answered :
            (o : Option Error)
            → IsConnected h
                (continue (result_of o) (λ _. rest) fail (note_if (result_of o) (opened r) m))
        answered none = more (note (opened r) m) (opened_next k r m one (funcs, journal))
        answered (some e) = fails k e m (funcs, journal)

  call_last : (mid : Host) → IsOpened 2 h mid → IsConnected h (call mid)
  call_last mid (funcs, journal) = answered (mid.answers mid.tick)
    where
      m : Host
      m = record mid { tick = mid.tick + 1 }

      answered : (o : Option Error) → IsConnected h (result_of o, m)
      answered none = connected m (funcs, journal)
      answered (some e) = fails 2 e m (funcs, journal)

  load_db-IsConnected : IsConnected h (load_db h)
  unfolding load_db
  load_db-IsConnected =
      call-IsConnected _ h 0 (refl, sym (append-nil h.journal))
        (λ m1 at1. create-IsConnected _ m1 0 pool refl at1 (λ m2 at2.
          call-IsConnected _ m2 1 at2 (λ m3 at3.
            call_last (note (opened redis_client) m3) (opened_next 1 redis_client m3 refl at3))))

-- The closings, in the order of `main`.
abbrev pub closings : List Resource → List Event
closings funcs =
    closed server ∷ map closed (reverse funcs)
    ++ closed processors ∷ closed pool ∷ closed redis_client ∷ []

close_server-state : (h : Host) → (close_server h).1 ≡ (close server h).1
unfolding close_server
close_server-state h = map_err-state _ (close server) h

close_db-state : (h : Host) → (close_db h).1 ≡ (close_database h).1
unfolding close_db
close_db-state h = map_err-state _ close_database h

-- The closing of the server, telemetry, the processors and the database runs to its end, whatever they
-- report.
pub stop-journal :
    (ending : Ending) (h : Host)
    → (stop ending h).1.journal ≡ h.journal ++ closings h.shutdown_funcs
unfolding stop close_otel close close_database
stop-journal ending h =
    let h1 = (close_server h).1 in
    let h2 = (close_otel h1).1 in
    let at1 = close_server-state h in
    let at2 = (shutdown-journal h1).0 in
    let at3 = close_db-state (note (closed processors) h2) in
    ap (λ w. w.journal) at3
    ∙ ap (λ j. ((j ++ closed processors ∷ []) ++ closed pool ∷ []) ++ closed redis_client ∷ []) at2
    ∙ ap
        (λ w.
          (((w.journal ++ map closed (reverse w.shutdown_funcs)) ++ closed processors ∷ [])
            ++ closed pool ∷ [])
          ++ closed redis_client ∷ [])
        at1
    ∙ simp (append_assoc)

abbrev pub launched : List Event
launched = opened processors ∷ opened server ∷ []

-- The program ended with status 1 before it served, with telemetry closed again; or it served, and
-- everything was closed.
abbrev pub IsReleased : Host → ℕ × Host → Type 0
IsReleased h (status, h') =
    ((n : ℕ) × (k : ℕ) × (status ≡ 1)
      × (h'.journal
          ≡ h.journal
            ++ starting_all (take n telemetry)
            ++ take k connections
            ++ map closed (reverse (take n telemetry))))
    ⊎ (h'.journal
        ≡ h.journal ++ starting_all telemetry ++ connections ++ launched ++ closings telemetry)

module _ (ending : Ending) (h : Host) where
  serve_until-IsReleased :
      (mid : Host) (r : Result (Unit {0})) (m : Host)
      → IsReached 4 h mid
      → IsConnected mid (r, m)
      → IsReleased h (serve_until ending r m)
  unfolding serve_until close_otel
  serve_until-IsReleased mid (ok _) m (journal, funcs) (same, how) = elim how [
    | inl (_, at) ↦ inr (
        stop-journal ending (launch m)
        ∙ ap (λ rs. (launch m).journal ++ closings rs) (same ∙ funcs)
        ∙ ap (λ j. ((j ++ opened processors ∷ []) ++ opened server ∷ []) ++ closings telemetry)
            (at ∙ ap (λ j. j ++ connections) journal)
        ∙ simp (append_assoc))
    | inr (e, k, failed, at) ↦ absurd (ground arith)
  ]
  serve_until-IsReleased mid (err e) m (journal, funcs) (same, how) = elim how [
    | inl (worked, at) ↦ absurd (ground arith)
    | inr (_, k, failed, at) ↦ inl (
      4,
      k,
      refl,
      (shutdown-journal m).0
          ∙ ap (λ rs. m.journal ++ map closed (reverse rs)) (same ∙ funcs)
          ∙ ap (λ j. j ++ map closed (reverse telemetry))
              (at ∙ ap (λ j. j ++ take k connections) journal),
    )
  ]

  with_telemetry-IsReleased :
      (errors : List Error) (m : Host)
      → IsSetUp h (errors, m)
      → IsReleased h (with_telemetry ending errors m)
  unfolding with_telemetry
  with_telemetry-IsReleased [] m (inl (none_failed, reached)) =
      serve_until-IsReleased m (load_db m).0 (load_db m).1 reached (load_db-IsConnected m)
  with_telemetry-IsReleased [] m (inr (n, ((e, es, some_failed), journal, funcs))) =
      absurd (ground arith)
  with_telemetry-IsReleased (e ∷ es) m (inl (none_failed, reached)) = absurd (ground arith)
  with_telemetry-IsReleased (e ∷ es) m (inr (n, (some_failed, journal, funcs))) = inl (
    n,
    0,
    refl,
    journal
        ∙ ap (λ j. j ++ map closed (reverse (take n telemetry)))
            (sym (append-nil (h.journal ++ starting_all (take n telemetry)))),
  )

  with_config-IsReleased :
      {K P : Type 0} (loaded : Result (Config K P))
      → h.shutdown_funcs ≡ []
      → IsReleased h (with_config ending loaded h)
  unfolding with_config
  with_config-IsReleased (err e) fresh = inl (0, 0, refl, simp (append-nil))
  with_config-IsReleased (ok cfg) fresh =
      with_telemetry-IsReleased _ _ (setup_otel_sdk-IsSetUp h fresh)

-- However the program ends, telemetry is closed again: it ended with status 1 before it served, and what
-- telemetry had opened was closed, the last first; or it served, and then the server, telemetry, the
-- processors, the pool and the client of Redis were closed, each once and in this order, whatever a
-- closing reports. No function is registered for the shutdown before.
pub main-IsReleased :
    {K P : Type 0} (system : System K P) (ending : Ending) (h : Host)
    → h.shutdown_funcs ≡ []
    → IsReleased h (main system ending h)
unfolding main
main-IsReleased system ending h fresh = with_config-IsReleased ending h (load system) fresh
