-- ===== src/Processors/Events/Marking.antt =====
-- When the cycle of internal/processors/postEventsProcessor.go marks an event as processed.
use blog_go.Prelude.{ℕ, ◌≡◌, inl, inr, ◌∙◌, Bool, true, false, ◌||◌, List, [], ◌∷◌, arith, elem}
use blog_go.Errs.{wrap}
use blog_go.Action.{ok, Action, map_err}
use blog_go.Action.Laws.{>>=-cases, map_err-eq-ok, map_err-state}
use blog_go.Action.Keeps.{Keeps, Keeps-bind, keeps_rules}
use blog_go.Models.{Uuid, Time, Post}
use blog_go.Cache.{FeedCacher}
use blog_go.Database.{OutboxRow, OutboxMessageType, post_added, post_deleted, unknown_type}
use blog_go.Repositories.{UserRepository}
use blog_go.Processors.Events.{
  OutboxQueries, from_events_to_ids, process_event, process_events, process_batch,
  fetch_and_process,
}

-- `marked w id`: the outbox has the event `id` with a `processed_at`. Only the update sets it, and only
-- for its ids; the rest leaves it, also where it fails.
pub record Marks {W : Type 0} (q : OutboxQueries W) (feeds : FeedCacher W)
    (users : UserRepository W) : Type 0 where
  pub marked : W → Uuid → Bool
  pub get :
      (limit : ℕ) (w : W) (id : Uuid) → marked (q.get_outbox_events limit w).1 id ≡ marked w id
  pub get_subs : (a : Uuid) (w : W) (id : Uuid) → marked (users.get_subs a w).1 id ≡ marked w id
  pub push :
      (p : Uuid) (at : Time) (subs : List Uuid) (w : W) (id : Uuid)
      → marked (feeds.push_to_feeds p at subs w).1 id ≡ marked w id
  pub remove :
      (p : Uuid) (at : Time) (subs : List Uuid) (w : W) (id : Uuid)
      → marked (feeds.remove_from_feeds p at subs w).1 id ≡ marked w id
  pub set :
      (ids : List Uuid) (w : W) (id : Uuid)
      → marked (q.set_events_as_processed ids w).1 id ≡ true
      → (marked w id || elem id ids) ≡ true

module _ {W : Type 0} {q : OutboxQueries W} {feeds : FeedCacher W} {users : UserRepository W}
    (m : Marks q feeds users) (id : Uuid) where
  abbrev Unmarked : W → Type 0
  Unmarked w = m.marked w id ≡ false

  get_subs-Unmarked : (a : Uuid) → Keeps Unmarked (users.get_subs a)
  get_subs-Unmarked a = record { at = λ w h. m.get_subs a w id ∙ h }

  push-Unmarked :
      (p : Uuid) (at : Time) (subs : List Uuid) → Keeps Unmarked (feeds.push_to_feeds p at subs)
  push-Unmarked p at subs = record { at = λ w h. m.push p at subs w id ∙ h }

  remove-Unmarked :
      (p : Uuid) (at : Time) (subs : List Uuid) → Keeps Unmarked (feeds.remove_from_feeds p at subs)
  remove-Unmarked p at subs = record { at = λ w h. m.remove p at subs w id ∙ h }

  process_event-Unmarked :
      (type : OutboxMessageType) (post : Post)
      → Keeps Unmarked (process_event feeds users type post)
  unfolding process_event
  process_event-Unmarked post_added post = search (keeps_rules, get_subs-Unmarked, push-Unmarked)
  process_event-Unmarked post_deleted post =
      search (keeps_rules, get_subs-Unmarked, remove-Unmarked)
  process_event-Unmarked (unknown_type s) post = search keeps_rules

  process_events-Unmarked :
      (events : List OutboxRow) → Keeps Unmarked (process_events feeds users events)
  unfolding process_events
  process_events-Unmarked [] = search keeps_rules
  process_events-Unmarked (e ∷ events) =
      Keeps-bind _ _ (process_event-Unmarked _ _) (λ _ _ _. process_events-Unmarked events)

  -- The event was part of a batch that was processed to its end.
  pub record Processed (limit : ℕ) (w : W) : Type 0 where
    pub events : List OutboxRow
    pub fetched : W
    pub delivered : W
    pub fetch : q.get_outbox_events limit w ≡ (ok events, fetched)
    pub process : process_events feeds users events fetched ≡ (ok tt, delivered)
    pub listed : elem id (from_events_to_ids events) ≡ true

  marked-Unmarked : {A : Type 0} (v : W) → Unmarked v → m.marked v id ≡ true → A
  marked-Unmarked v off on = absurd (ground arith)

  listed_of :
      (v : W) (ids : List Uuid)
      → Unmarked v
      → m.marked (q.set_events_as_processed ids v).1 id ≡ true
      → elem id ids ≡ true
  listed_of v ids off on = ground (arith, m.set ids v id)

  -- The part of the cycle after the fetch.
  batch-Processed :
      (limit : ℕ) (w u : W) (events : List OutboxRow)
      → q.get_outbox_events limit w ≡ (ok events, u)
      → Unmarked u
      → m.marked (process_batch q feeds users events u).1 id ≡ true
      → Processed limit w
  unfolding process_batch
  batch-Processed limit w u [] fetch off on = marked-Unmarked u off on
  batch-Processed limit w u (e ∷ events) fetch off on =
      let run = process_events feeds users (e ∷ events) in
      let ids = from_events_to_ids (e ∷ events) in
      let set : Action W (Unit {0}) =
        map_err (wrap "set events as processed failed") (q.set_events_as_processed ids) in
      let after = (process_events-Unmarked (e ∷ events)).at u off in
      elim (>>=-cases (map_err (wrap "event processing failed") run) (λ _. set) u) [
        | inl (x, v, failed, out) ↦
            marked-Unmarked (run u).1 after
              (ground (arith, map_err-state (wrap "event processing failed") run u))
        | inr (done, v, ran, out) ↦ record {
          events = e ∷ events;
          fetched = u;
          delivered = v;
          fetch = fetch;
          process = map_err-eq-ok _ run u ran;
          listed =
              listed_of v ids
                (ground (
                  arith,
                  (process_events-Unmarked (e ∷ events)).at u off,
                  map_err-eq-ok (wrap "event processing failed") run u ran,
                ))
                (ground (
                  arith,
                  map_err-state (wrap "set events as processed failed")
                      (q.set_events_as_processed ids) v,
                ));
        }
      ]

  -- An event that a cycle marked as processed was fetched by that cycle, and every event of its batch
  -- was delivered before: nothing is marked that was not processed, whatever fails on the way. For an
  -- event that was not marked before, and an outbox where only the update marks, and only its ids.
  pub fetch_and_process-Processed :
      (limit : ℕ) (w : W)
      → m.marked w id ≡ false
      → m.marked (fetch_and_process q feeds users limit w).1 id ≡ true
      → Processed limit w
  unfolding fetch_and_process
  fetch_and_process-Processed limit w off on =
      let get = q.get_outbox_events limit in
      elim (>>=-cases (map_err (wrap "fetch from the outbox failed") get)
        (process_batch q feeds users) w) [
          | inl (x, u, failed, out) ↦
              marked-Unmarked (get w).1 (m.get limit w id ∙ off)
                (ground (arith, map_err-state (wrap "fetch from the outbox failed") get w))
          | inr (events, u, got, out) ↦
              batch-Processed limit w u events (map_err-eq-ok _ get w got)
                (ground (
                  arith,
                  map_err-eq-ok (wrap "fetch from the outbox failed") get w got,
                  m.get limit w id,
                ))
                (ground arith)
        ]
