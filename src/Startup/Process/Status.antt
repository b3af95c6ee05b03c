-- ===== src/Startup/Process/Status.antt =====
-- The exit status of main.go, and what it reports at the end.
use blog_go.Prelude.{
  String, ℕ, zero, suc, ◌+◌, ◌≡◌, refl, ap, ◌∙◌, Bool, true, false, ◌&&◌, Option, none, some, List,
  [], ◌∷◌, ◌++◌, map, length, reverse, arith, if◌then◌else◌,
}
use mathlib.Core.List.{reverse_aux}
use blog_go.Errs.{Error, wrap}
use blog_go.Action.{Result, err, pure, fail, continue, map_err, branch}
use blog_go.Action.Laws.{map_err-state}
use blog_go.Startup.{Resource, server, Host, close, result_of, closed, processors, note}
use blog_go.Startup.Telemetry.{joined, close_all, shutdown}
use blog_go.Startup.Process.{
  close_database, close_server, close_otel, close_db, Ending, interrupted, died, ending_errors,
  replace, stop, exit_status,
}

abbrev pub is_interrupted : Ending → Bool
is_interrupted interrupted = true
is_interrupted (died e) = false

abbrev is_empty : List Error → Bool
is_empty [] = true
is_empty (e ∷ es) = false

abbrev is_none : Option Error → Bool
is_none none = true
is_none (some e) = false

-- None of the next calls is answered with an error.
abbrev pub is_quiet : (ℕ → Option Error) → ℕ → ℕ → Bool
is_quiet answers tick zero = true
is_quiet answers tick (suc n) =
    let rest = is_quiet answers (tick + 1) n in is_none (answers tick) && rest

is_quiet-suc :
    (answers : ℕ → Option Error) (n tick : ℕ)
    → is_quiet answers tick (suc n) ≡ is_quiet answers tick n && is_none (answers (tick + n))
is_quiet-suc answers zero tick = grind arith
is_quiet-suc answers (suc n) tick = grind (arith, is_quiet-suc answers n (tick + 1))

is_empty-append : (es ds : List Error) → is_empty (es ++ ds) ≡ is_empty es && is_empty ds
is_empty-append [] ds = refl
is_empty-append (e ∷ es) ds = refl

is_empty-joined : (o : Option Error) → is_empty (joined (result_of o)) ≡ is_none o
is_empty-joined none = refl
is_empty-joined (some e) = refl

-- Closing makes one call for each resource, and reports the errors of all of them.
close_all-calls :
    (rs : List Resource) (h : Host)
    → (is_empty (close_all rs h).0 ≡ is_quiet h.answers h.tick (length rs))
      × ((close_all rs h).1.answers ≡ h.answers)
      × ((close_all rs h).1.tick ≡ h.tick + length rs)
unfolding close_all close
close_all-calls [] h = (refl, refl, omega arith)
close_all-calls (r ∷ rs) h =
    let (quiet, answers, ticks) = close_all-calls rs (close r h).1 in
    (
      is_empty-append (joined (result_of (h.answers h.tick))) (close_all rs (close r h).1).0
          ∙ (λ i. is_empty-joined (h.answers h.tick) i && quiet i),
      answers,
      ticks ∙ omega arith,
    )

length-reverse_aux : (rs qs : List Resource) → length (reverse_aux rs qs) ≡ length rs + length qs
length-reverse_aux [] qs = omega arith
length-reverse_aux (r ∷ rs) qs = length-reverse_aux rs (r ∷ qs) ∙ omega arith

is_empty-map : (f : Error → Error) (es : List Error) → is_empty (map f es) ≡ is_empty es
is_empty-map f [] = refl
is_empty-map f (e ∷ es) = refl

-- The first closing, whose error takes the place of the server's own.
module _ (text : String) where
  is_empty-replace :
      (ending : Ending) (o : Option Error) (h : Host)
      → is_empty (
          replace
            (ending_errors ending)
            (continue (result_of o) pure (λ e. fail (wrap text e)) h).0)
        ≡ is_interrupted ending && is_none o
  unfolding replace ending_errors
  is_empty-replace interrupted none h = refl
  is_empty-replace interrupted (some e) h = refl
  is_empty-replace (died d) none h = refl
  is_empty-replace (died d) (some e) h = refl

  is_empty-wrapped :
      (o : Option Error) (h : Host)
      → is_empty (joined (continue (result_of o) pure (λ e. fail (wrap text e)) h).0) ≡ is_none o
  is_empty-wrapped none h = refl
  is_empty-wrapped (some e) h = refl

length-reverse : (rs : List Resource) → length (reverse rs) ≡ length rs
length-reverse rs = length-reverse_aux rs [] ∙ omega arith

module _ (ending : Ending) (h : Host) where
  abbrev funcs : List Resource
  funcs = h.shutdown_funcs

  server_is_empty :
      is_empty (replace (ending_errors ending) (close_server h).0)
      ≡ is_interrupted ending && is_none (h.answers h.tick)
  unfolding close_server close map_err branch
  server_is_empty = is_empty-replace "server shutdown" ending (h.answers h.tick) _

  -- Telemetry is closed behind the server, and the client of Redis behind telemetry.
  otel_is_empty :
      (is_empty (close_otel (close_server h).1).0 ≡ is_quiet h.answers (h.tick + 1) (length funcs))
      × ((close_otel (close_server h).1).1.answers ≡ h.answers)
      × ((close_otel (close_server h).1).1.tick ≡ h.tick + 1 + length funcs)
  unfolding close_otel shutdown close_server close
  otel_is_empty =
      let h1 = (close_server h).1 in
      let at1 = map_err-state (wrap "server shutdown") (close server) h in
      let (quiet, answers, ticks) = close_all-calls (reverse h1.shutdown_funcs) h1 in
      let count = length-reverse funcs in
      (
        is_empty-map (wrap "telemetry shutdown") _
            ∙ quiet
            ∙ ap (λ w. is_quiet w.answers w.tick (length (reverse w.shutdown_funcs))) at1
            ∙ ap (is_quiet h.answers (h.tick + 1)) count,
        answers ∙ ap (λ w. w.answers) at1,
        ticks
            ∙ ap (λ w. w.tick + length (reverse w.shutdown_funcs)) at1
            ∙ ap (λ n. h.tick + 1 + n) count,
      )

  db_is_empty :
      (w : Host)
      → is_empty (joined (close_db (note (closed processors) w)).0) ≡ is_none (w.answers w.tick)
  unfolding close_db close_database close map_err branch
  db_is_empty w = is_empty-wrapped "database close" (w.answers w.tick) _

  stop-is_empty :
      is_empty (stop ending h).0
      ≡ is_interrupted ending && is_quiet h.answers h.tick (suc (suc (length funcs)))
  unfolding stop
  stop-is_empty =
      let (quiet, answers, ticks) = otel_is_empty in
      let w = (close_otel (close_server h).1).1 in
      let last : is_none (w.answers w.tick) ≡ is_none (h.answers (h.tick + 1 + length funcs)) =
        λ i. is_none (answers i (ticks i)) in
      is_empty-append _ _
      ∙ (λ i.
          is_empty-append (replace (ending_errors ending) (close_server h).0)
            (close_otel (close_server h).1).0 i
          && (db_is_empty w ∙ last) i)
      ∙ (λ i. server_is_empty i && quiet i && is_none (h.answers (h.tick + 1 + length funcs)))
      ∙ grind (arith, is_quiet-suc h.answers (length funcs) (h.tick + 1))

exit_status-eq : (es : List Error) → exit_status es ≡ (if is_empty es then 0 else 1)
unfolding exit_status
exit_status-eq [] = refl
exit_status-eq (e ∷ es) = refl

-- A program that served exits with status 0 exactly if a signal ended it and every closing succeeded:
-- the server's, each function's of the shutdown of telemetry, and that of the client of Redis.
pub stop-exit_status :
    (ending : Ending) (h : Host)
    → exit_status (stop ending h).0 ≡ (
        if is_interrupted ending && is_quiet h.answers h.tick (suc (suc (length h.shutdown_funcs)))
        then 0
        else 1)
stop-exit_status ending h =
    exit_status-eq (stop ending h).0 ∙ ap (λ b. if b then 0 else 1) (stop-is_empty ending h)

replace-same :
    (ending other : Ending) (r : Result (Unit {0})) (x : Error)
    → r ≡ err x
    → replace (ending_errors ending) r ≡ replace (ending_errors other) r
unfolding replace
replace-same ending other r x failed = rw failed refl

close_server-err :
    (h : Host) (x : Error)
    → h.answers h.tick ≡ some x
    → (close_server h).0 ≡ err (wrap "server shutdown" x)
unfolding close_server close map_err branch
close_server-err h x failed = rw failed refl

-- If the server died and its shutdown fails as well, the error that it died of is missing from the
-- final report, which is that of a program that a signal ended.
pub stop-lost :
    (e x : Error) (h : Host) → h.answers h.tick ≡ some x → stop (died e) h ≡ stop interrupted h
unfolding stop
stop-lost e x h failed =
    rw (replace-same (died e) interrupted (close_server h).0 _ (close_server-err h x failed)) refl
