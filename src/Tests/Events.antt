-- ===== src/Tests/Events.antt =====
-- The consumer of internal/processors/postEventsProcessor.go over a feed that is a Boolean table.
use blog_go.Prelude.{
  ℕ, ◌*◌, ◌^◌, min, ◌≡◌, refl, Bool, true, false, not, ◌&&◌, ◌||◌, List, [], ◌∷◌, ◌==◌,
  if◌then◌else◌, elem, arith,
}
use blog_go.Errs.{other}
use blog_go.Action.{Action, ok, err, fail}
use blog_go.Models.{unix_milli, Uuid, Time}
use blog_go.Cache.{FeedCacher}
use blog_go.Database.{OutboxRow, OutboxMessageType, post_added, post_deleted}
use blog_go.Repositories.{UserRepository}
use blog_go.Processors.Backoff.{ExponentialBackOff, next_delay, new_exponential_back_off}
use blog_go.Processors.Backoff.Growth.{IsConfigured, next_delay-eq-min}
use blog_go.Processors.Events.{
  OutboxQueries, Processor, loop, process_events, process_event, push_to_feed, remove_from_feed,
  fetch_and_process,
}
use blog_go.Processors.Events.Delivery.{
  Delivery, deliver, deliver_one, same_entry, process_events-again,
}
use blog_go.Processors.Events.Marking.{Marks, Processed, fetch_and_process-Processed}
use blog_go.Processors.Events.Pacing.{fires, with_count, loop-next_delay}
use blog_go.Tests.Fixtures.{actions, ann, post}

record World : Type 0 where
  entries : Uuid → Uuid → Time → Bool
  marks : Uuid → Bool
  fails_left : ℕ

abbrev put : Uuid → Time → List Uuid → World → World
put id at subs w = record w {
  entries = λ s p t. w.entries s p t || (elem s subs && same_entry id at p t);
}

abbrev take_out : Uuid → Time → List Uuid → World → World
take_out id at subs w = record w {
  entries = λ s p t. w.entries s p t && not (elem s subs && same_entry id at p t);
}

abbrev feeds : FeedCacher World
feeds = record {
  push_to_feeds = λ id at subs w. (ok tt, put id at subs w);
  remove_from_feeds = λ id at subs w. (ok tt, take_out id at subs w);
  get_feed_posts_ids = λ user cursor limit w. (ok [], w);
}

-- Everybody is followed by the user 2.
abbrev users : UserRepository World
users = record {
  find_user_by_id = λ id w. (ok ann, w);
  find_user_by_login = λ login w. (ok ann, w);
  find_user_by_login_or_email = λ login email w. (ok ann, w);
  add_user = λ u w. (ok tt, w);
  get_subs = λ a w. (ok (2 ∷ []), w);
  subscribe_user_to = λ s a w. (ok tt, w);
  unsubscribe_user_from = λ s a w. (ok tt, w);
}

abbrev event : Uuid → OutboxMessageType → OutboxRow
event id type = record {
  id = id;
  message_type = type;
  payload = post;
  created_at = 1;
  processed_at = record { time = 0; valid = false };
}

abbrev queries : OutboxQueries World
queries = record {
  get_outbox_events = λ limit w. (ok (event 5 post_added ∷ []), w);
  set_events_as_processed = λ ids w. (ok tt, record w { marks = λ id. w.marks id || elem id ids });
}

abbrev start : World
start = record { entries = λ s p t. false; marks = λ id. false; fails_left = 0 }

test_delivery : Delivery feeds users
test_delivery = record {
  has = λ w. w.entries;
  follows = λ w a s. elem s (2 ∷ []);
  get_subs_ok = λ a w w' subs h. (λ s. ground arith, λ b s. refl, λ s p t. ground arith);
  push_ok = λ id at subs w w' h. (λ b s. refl, λ s p t. ground arith);
  remove_ok = λ id at subs w w' h. (λ b s. refl, λ s p t. ground arith);
}

test_marks : Marks queries feeds users
test_marks = record {
  marked = λ w. w.marks;
  get = λ limit w id. refl;
  get_subs = λ a w id. refl;
  push = λ p at subs w id. refl;
  remove = λ p at subs w id. refl;
  set = λ ids w id h. h;
}

events : Unit {0}
unfolding actions unix_milli process_events process_event push_to_feed remove_from_feed
    fetch_and_process deliver deliver_one
events = tt

abbrev whole : List OutboxRow
whole = event 5 post_added ∷ event 6 post_deleted ∷ []

abbrev once : World
once = (process_events feeds users (event 5 post_added ∷ []) start).1

abbrev twice : World
twice = (process_events feeds users whole once).1

delivery_tests :
    (once.entries 2 30 50_000 ≡ true)
    × (once.entries 3 30 50_000 ≡ false)
    × (twice.entries 2 30 50_000 ≡ false)
unfolding events
delivery_tests = (refl, refl, refl)

process_events-again_example :
    twice.entries 2 30 50_000
    ≡ deliver whole (λ a. elem 2 (2 ∷ [])) 30 50_000 (start.entries 2 30 50_000)
unfolding events test_delivery
process_events-again_example =
    process_events-again test_delivery (event 5 post_added ∷ []) (event 6 post_deleted ∷ []) start
      once twice refl refl 2 30 50_000

fetch_and_process-Processed_example : Processed test_marks 5 10 start
unfolding events test_marks
fetch_and_process-Processed_example = fetch_and_process-Processed test_marks 5 10 start refl refl

-- The settings of `NewPostEventsProcessor`: 2, 1 s, 30 s.
abbrev backoff : ℕ → ExponentialBackOff
backoff n = with_count (new_exponential_back_off 2 1_000_000_000 30_000_000_000) n

configured : (n : ℕ) → IsConfigured (backoff n)
unfolding new_exponential_back_off
configured n = record { base_pos = omega arith; within = omega arith; fits = omega arith }

delay_tests :
    (next_delay (backoff 0) ≡ 0)
    × (next_delay (backoff 1) ≡ 1_000_000_000)
    × (next_delay (backoff 4) ≡ 8_000_000_000)
    × (next_delay (backoff 9) ≡ 30_000_000_000)
unfolding next_delay new_exponential_back_off
delay_tests = (refl, refl, refl, refl)

next_delay-eq-min_example : next_delay (backoff 4) ≡ min (1_000_000_000 * 2 ^ 3) 30_000_000_000
unfolding new_exponential_back_off
next_delay-eq-min_example = next_delay-eq-min (backoff 4) (configured 4) 3 refl (omega arith)

abbrev failing : Action World (Unit {0})
failing = fail (other "no outbox")

-- It fails as often as the world says.
flaky : Action World (Unit {0})
flaky w =
    if w.fails_left == 0 then (ok tt, w) else (err (other "no outbox"), record w { fails_left = 0 })

abbrev fresh_processor : ℕ → Processor World
fresh_processor n = record {
  world = record start { fails_left = n };
  backoff = backoff 0;
  finished = false;
}

loop-next_delay_example :
    next_delay (loop failing (fires 4) (fresh_processor 0)).backoff
    ≡ min (1_000_000_000 * 2 ^ 3) 30_000_000_000
unfolding new_exponential_back_off
loop-next_delay_example =
    loop-next_delay failing (backoff 0) 3 (fresh_processor 0) (configured 0) refl (omega arith)
      (λ w. (other "no outbox", refl))
