-- ===== src/Routes/Outbox/Drained.antt =====
-- The cycles of internal/processors/postEventsProcessor.go work off the outbox.
use blog_go.Prelude.{
  ℕ, zero, suc, ◌+◌, ◌≤◌, ◌<◌, ◌^◌, ◌≡◌, refl, sym, ap, ◌∙◌, subst, false, ◌⊎◌, inl, inr, List, [],
  ◌∷◌, arith, length, take, any,
}
use blog_go.Errs.{wrap, sentinel, err_nothing_to_fetch}
use blog_go.Action.{Result, ok, err, map_err}
use blog_go.Action.Laws.{>>=-ok, map_err-passes}
use blog_go.Models.{Uuid}
use blog_go.Database.{Tables, OutboxRow, served, pool_exec, answer, Stamp}
use blog_go.Database.Outbox.{sort_by_age, get_outbox_events, set_events_as_processed}
use blog_go.Database.Outbox.Pending.{
  waiting, set_events_as_processed-waiting, set_events_as_processed-any, batch-eq-nil, any-batch,
}
use blog_go.Processors.Events.{process_events, process_batch, fetch_and_process, from_events_to_ids}
use blog_go.Routes.World.{World, Parts, in_db, world_users, world_feeds}
use blog_go.Routes.Outbox.{world_outbox, cycle, cycles}
use blog_go.Routes.Outbox.Deliveries.{
  is_unknown, FeedsAnswer, Answers, still-Answers, process_events-Reads,
}

no_rows : (rs : List OutboxRow) → length rs ≤ 0 → rs ≡ []
no_rows [] h = refl
no_rows (r ∷ rs) h = absurd (ground arith)

set_events-ok :
    {R M : Type 0} (ids : List Uuid) (w : World R M)
    → Answers w
    → (stamp : Stamp) × (v : World R M) × ((world_outbox {R = R} {M = M}).set_events_as_processed
          ids w
        ≡ (ok tt, v))
      × (v.db.tables ≡ (set_events_as_processed ids stamp w.db.tables).1)
      × (v.db.faults ≡ w.db.faults)
unfolding world_outbox in_db pool_exec answer set_events_as_processed
set_events-ok ids w answers = (
  w.db.stamps w.db.tick,
  record w {
    db = record w.db {
      tables = (set_events_as_processed ids (w.db.stamps w.db.tick) w.db.tables).1;
      tick = w.db.tick + 1;
    };
  },
  rw (answers w.db.tick) refl,
  refl,
  refl,
)

get_outbox_events-Reads :
    {R M : Type 0} (limit : ℕ) (w : World R M)
    → limit < 2 ^ 31
    → Answers w
    → (u : World R M) × ((world_outbox {R = R} {M = M}).get_outbox_events limit w
        ≡ (ok (take limit (sort_by_age (waiting w.db.tables))), u))
      × (u.db.tables ≡ w.db.tables)
      × (u.db.faults ≡ w.db.faults)
unfolding world_outbox in_db pool_exec answer get_outbox_events
get_outbox_events-Reads limit w small answers = (
  record w { db = record w.db { tick = w.db.tick + 1 } },
  ground (arith, answers w.db.tick),
  refl,
  refl,
)

module _ {R M : Type 0} (parts : Parts R M) (feeds : FeedsAnswer parts) (limit : ℕ)
    (positive : 0 < limit) (small : limit < 2 ^ 31) where
  -- The database answers, and the outbox has events of known types only.
  abbrev pub IsHealthy : World R M → Type 0
  IsHealthy w =
      ((n : ℕ) → w.db.faults n ≡ served)
      × (any (λ e. is_unknown e.message_type) w.db.tables.outbox ≡ false)

  -- The cycle has fetched something and left less, or there was nothing to fetch.
  abbrev Went : World R M → Result (Unit {0}) × World R M → Type 0
  Went w (r, v) =
      IsHealthy v
      × (((r ≡ ok tt) × (length (waiting v.db.tables) < length (waiting w.db.tables)))
          ⊎ ((r ≡ err (sentinel err_nothing_to_fetch))
              × (waiting w.db.tables ≡ [])
              × (v.db.tables ≡ w.db.tables)))

  batch-Went :
      (w u : World R M) (events : List OutboxRow)
      → IsHealthy w
      → u.db.tables ≡ w.db.tables
      → u.db.faults ≡ w.db.faults
      → take limit (sort_by_age (waiting w.db.tables)) ≡ events
      → any (λ e. is_unknown e.message_type) events ≡ false
      → Went w (process_batch world_outbox (world_feeds parts) world_users events u)
  unfolding process_batch
  batch-Went w u [] (answers, known) tables faults batch fine = (
    (
      still-Answers w u faults answers,
      ap (λ (t : Tables). any (λ e. is_unknown e.message_type) t.outbox) tables ∙ known,
    ),
    inr (refl, batch-eq-nil limit w.db.tables positive batch, tables),
  )
  batch-Went w u (e ∷ es) (answers, known) tables faults batch fine =
      let answers_u = still-Answers w u faults answers in
      let (_, v, ran, tables', faults') =
        (process_events-Reads parts feeds (e ∷ es) fine).at u answers_u in
      let ids = from_events_to_ids (e ∷ es) in
      let (stamp, x, set, tables'', faults'') =
        set_events-ok ids v (still-Answers u v faults' answers_u) in
      let deliver = process_events (world_feeds parts) world_users (e ∷ es) in
      let set_ids = (world_outbox {R = R} {M = M}).set_events_as_processed ids in
      let run : process_batch world_outbox (world_feeds parts) world_users (e ∷ es) u ≡ (ok tt, x) =
        >>=-ok (map_err (wrap "event processing failed") deliver)
          (λ _. map_err (wrap "set events as processed failed") set_ids) u v tt
          (map_err-passes _ deliver u v tt ran)
        ∙ map_err-passes _ set_ids v x tt set in
      let same = tables' ∙ tables in
      let fewer =
        set_events_as_processed-waiting limit stamp v.db.tables e es
          (ap (λ t. take limit (sort_by_age (waiting t))) same ∙ batch) in
      subst (Went w) (sym run) (
        (
          still-Answers v x faults'' (still-Answers u v faults' answers_u),
          ap (λ (t : Tables). any (λ e. is_unknown e.message_type) t.outbox) tables''
              ∙ set_events_as_processed-any is_unknown ids stamp v.db.tables
              ∙ ap (λ (t : Tables). any (λ e. is_unknown e.message_type) t.outbox) same
              ∙ known,
        ),
        inl (
          refl,
          ground (
            arith,
            fewer,
            ap (λ t. length (waiting t)) same,
            ap (λ t. length (waiting t)) tables'',
          ),
        ),
      )

  cycle-Went : (w : World R M) → IsHealthy w → Went w (cycle parts limit w)
  unfolding cycle fetch_and_process
  cycle-Went w (answers, known) =
      let (u, got, tables, faults) = get_outbox_events-Reads limit w small answers in
      let fetch = (world_outbox {R = R} {M = M}).get_outbox_events limit in
      let events = take limit (sort_by_age (waiting w.db.tables)) in
      let run : cycle parts limit w
          ≡ process_batch world_outbox (world_feeds parts) world_users events u =
        >>=-ok (map_err (wrap "fetch from the outbox failed") fetch)
          (process_batch world_outbox (world_feeds parts) world_users) w u events
          (map_err-passes _ fetch w u events got) in
      subst (Went w) (sym run) (
        batch-Went w u events (answers, known) tables faults refl
          (any-batch (λ e. is_unknown e.message_type) limit w.db.tables known))

  -- With a database and a Redis that answer, every event is processed: after as many cycles as there
  -- were events waiting, or more, none waits. For a batch size from 1 to 2 ^ 31 - 1, events of known
  -- types, and nobody that adds events meanwhile.
  pub cycles-waiting :
      (n : ℕ) (w : World R M)
      → IsHealthy w
      → length (waiting w.db.tables) ≤ n
      → waiting (cycles parts limit n w).db.tables ≡ []
  unfolding cycles
  cycles-waiting zero w healthy fits = no_rows _ (omega arith)
  cycles-waiting (suc n) w healthy fits =
      let (healthy', went) = cycle-Went w healthy in
      cycles-waiting n _ healthy' (elim went [
        | inl (_, fewer) ↦ omega arith
        | inr (_, empty, same) ↦
            ground (arith, ap (length {A = OutboxRow}) empty, ap (λ t. length (waiting t)) same)
      ])
