-- ===== src/Processors/Events.antt =====
-- internal/processors/postEventsProcessor.go
pub mod Delivery
pub mod Marking
pub mod Pacing
use blog_go.Prelude.{ℕ, ◌%◌, ◌^◌, Bool, true, false, Option, none, some, List, [], ◌∷◌, map}
use blog_go.Errs.{Error, sentinel, other, wrap, err_nothing_to_fetch}
use blog_go.Action.{Result, ok, err, Action, pure, fail, branch, ◌>>=◌, ◌>>◌, map_err}
use blog_go.Models.{Uuid, Post}
use blog_go.Cache.{FeedCacher}
use blog_go.Database.{OutboxRow, OutboxMessageType, post_added, post_deleted, unknown_type}
use blog_go.Repositories.{UserRepository}
use blog_go.Processors.Backoff.{ExponentialBackOff, accumulate_adverse, clear_adverse}

-- `OutboxQueries`
pub record OutboxQueries (W : Type 0) : Type 0 where
  pub get_outbox_events : ℕ → Action W (List OutboxRow)
  pub set_events_as_processed : List Uuid → Action W (Unit {0})

abbrev pub from_events_to_ids : List OutboxRow → List Uuid
from_events_to_ids = map (λ event. event.id)

module _ {W : Type 0} (feeds : FeedCacher W) (users : UserRepository W) where
  unfoldable pub remove_from_feed : Post → Action W (Unit {0})
  remove_from_feed post = do
    subs ← users.get_subs post.author_id
    feeds.remove_from_feeds post.id post.created_at subs

  unfoldable pub push_to_feed : Post → Action W (Unit {0})
  push_to_feed post = do
    subs ← users.get_subs post.author_id
    feeds.push_to_feeds post.id post.created_at subs

  -- One round of the loop over the events.
  unfoldable pub process_event : OutboxMessageType → Post → Action W (Unit {0})
  unfolding push_to_feed remove_from_feed
  process_event post_added post = push_to_feed post
  process_event post_deleted post = remove_from_feed post
  process_event (unknown_type s) post = fail (other "unknown OutboxMessageType")

  unfoldable pub process_events : List OutboxRow → Action W (Unit {0})
  unfolding process_event
  process_events [] = pure tt
  process_events (event ∷ events) =
      let rest = process_events events in process_event event.message_type event.payload >> rest

module _ {W : Type 0} (q : OutboxQueries W) (feeds : FeedCacher W) (users : UserRepository W) where
  -- The part after the fetch.
  unfoldable pub process_batch : List OutboxRow → Action W (Unit {0})
  unfolding process_events
  process_batch [] = fail (sentinel err_nothing_to_fetch)
  process_batch (event ∷ events) = do
    map_err (wrap "event processing failed") (process_events feeds users (event ∷ events))
    map_err (wrap "set events as processed failed")
        (q.set_events_as_processed (from_events_to_ids (event ∷ events)))

  unfoldable pub fetch_and_process : ℕ → Action W (Unit {0})
  unfolding process_batch
  fetch_and_process limit = do
    events ← map_err (wrap "fetch from the outbox failed") (q.get_outbox_events limit)
    process_batch events

-- A round of `loop` after its timer fired: the cycle, and what it does to the backoff.
abbrev pub settle : {A : Type 0} → Result A → ExponentialBackOff → ExponentialBackOff
settle (ok _) b = clear_adverse b
settle (err e) b = accumulate_adverse b

-- What `select` in the loop finds first.
pub data Signal : Type 0 where
  done fired : Signal

pub record Processor (W : Type 0) : Type 0 where
  pub world : W
  pub backoff : ExponentialBackOff
  -- the goroutine has returned and closed `processFinishedChan`
  pub finished : Bool

module _ {W : Type 0} (cycle : Action W (Unit {0})) where
  round : Signal → Processor W → Processor W
  round done p = record p { finished = true }
  round fired p =
      let (r, w) = cycle p.world in
      record { world = w; backoff = settle r p.backoff; finished = false }

  -- `loop`: a signal for each round, until `done`.
  unfoldable pub loop : List Signal → Processor W → Processor W
  unfolding round
  loop [] p = p
  loop (done ∷ signals) p = round done p
  loop (fired ∷ signals) p = loop signals (round fired p)
