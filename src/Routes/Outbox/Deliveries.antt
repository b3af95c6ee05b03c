-- ===== src/Routes/Outbox/Deliveries.antt =====
-- Deliveries of internal/processors/postEventsProcessor.go where the database and Redis answer.
use blog_go.Prelude.{
  ℕ, ◌+◌, ◌≡◌, refl, ap, ◌∙◌, Bool, true, false, List, [], ◌∷◌, map, arith, any, filter, ◌==◌,
}
use blog_go.Action.{ok, Action, pure, ◌>>=◌, map_err, branch}
use blog_go.Action.Laws.{>>=-ok}
use blog_go.Models.{Uuid, Time, Post}
use blog_go.Database.{
  OutboxRow, OutboxMessageType, post_added, post_deleted, unknown_type, served, pool_exec, answer,
}
use blog_go.Database.Users.{get_subscribers}
use blog_go.Repositories.Users.{user_repository, get_subs}
use blog_go.Processors.Events.{process_event, process_events, push_to_feed, remove_from_feed}
use blog_go.Routes.World.{World, Parts, in_db, in_redis, world_users, world_feeds}

abbrev pub is_unknown : OutboxMessageType → Bool
is_unknown post_added = false
is_unknown post_deleted = false
is_unknown (unknown_type s) = true

module _ {R M : Type 0} (parts : Parts R M) where
  -- Redis answers the writes to the feeds.
  pub record FeedsAnswer : Type 0 where
    pub push :
        (id : Uuid) (at : Time) (subs : List Uuid) (r : R)
        → (parts.feed_cacher.push_to_feeds id at subs r).0 ≡ ok tt
    pub remove :
        (id : Uuid) (at : Time) (subs : List Uuid) (r : R)
        → (parts.feed_cacher.remove_from_feeds id at subs r).0 ≡ ok tt

abbrev pub Answers : {R M : Type 0} → World R M → Type 0
Answers w = (n : ℕ) → w.db.faults n ≡ served

-- The call returns a value and leaves the tables, whenever the database answers.
pub record Reads {R M A : Type 0} (m : Action (World R M) A) : Type 0 where
  pub at :
      (w : World R M)
      → Answers w
      → (a : A) × (w' : World R M) × (m w ≡ (ok a, w'))
        × (w'.db.tables ≡ w.db.tables)
        × (w'.db.faults ≡ w.db.faults)

pub still-Answers :
    {R M : Type 0} (w w' : World R M) → w'.db.faults ≡ w.db.faults → Answers w → Answers w'
still-Answers w w' same answers n = ap (λ f. f n) same ∙ answers n

module _ {R M A B : Type 0} where
  Reads-bind :
      (m : Action (World R M) A) (f : A → Action (World R M) B)
      → Reads m
      → ((a : A) → Reads (f a))
      → Reads (m >>= f)
  Reads-bind m f first next = record {
    at = λ w answers.
        let (a, u, ran, tables, faults) = first.at w answers in
        let (b, v, ran', tables', faults') = (next a).at u (still-Answers w u faults answers) in
        (b, v, >>=-ok m f w u a ran ∙ ran', tables' ∙ tables, faults' ∙ faults);
  }

module _ {R M : Type 0} where
  Reads-pure : {A : Type 0} (a : A) → Reads {R = R} {M = M} (pure a)
  Reads-pure a = record { at = λ w answers. (a, w, refl, refl, refl) }

  get_subs-Reads : (id : Uuid) → Reads {R = R} {M = M} (world_users.get_subs id)
  unfolding world_users in_db user_repository get_subs map_err branch pool_exec answer
      get_subscribers
  get_subs-Reads id = record {
    at = λ w answers. (
      map (λ r. r.sub_id) (filter (λ r. r.auth_id == id) w.db.tables.subscriber_author),
      record w { db = record w.db { tick = w.db.tick + 1 } },
      rw (answers w.db.tick) refl,
      refl,
      refl,
    );
  }

  in_redis-Reads :
      {A : Type 0} (m : Action R A)
      → ((r : R) → (a : A) × ((m r).0 ≡ ok a))
      → Reads {R = R} {M = M} (in_redis m)
  unfolding in_redis
  in_redis-Reads m returns = record {
    at = λ w answers.
        let (a, e) = returns w.redis in
        (a, record w { redis = (m w.redis).1 }, ground arith, refl, refl);
  }

module _ {R M : Type 0} (parts : Parts R M) (feeds : FeedsAnswer parts) where
  process_event-Reads :
      (type : OutboxMessageType) (post : Post)
      → is_unknown type ≡ false
      → Reads (process_event (world_feeds parts) world_users type post)
  unfolding process_event push_to_feed remove_from_feed world_feeds
  process_event-Reads post_added post known =
      Reads-bind _ _ (get_subs-Reads post.author_id)
        λ subs. in_redis-Reads _ (λ r. (tt, feeds.push post.id post.created_at subs r))
  process_event-Reads post_deleted post known =
      Reads-bind _ _ (get_subs-Reads post.author_id)
        λ subs. in_redis-Reads _ (λ r. (tt, feeds.remove post.id post.created_at subs r))
  process_event-Reads (unknown_type s) post known = absurd (ground arith)

  pub process_events-Reads :
      (events : List OutboxRow)
      → any (λ e. is_unknown e.message_type) events ≡ false
      → Reads (process_events (world_feeds parts) world_users events)
  unfolding process_events
  process_events-Reads [] known = Reads-pure tt
  process_events-Reads (e ∷ events) known =
      Reads-bind _ _ (process_event-Reads e.message_type e.payload (ground arith))
        λ _. process_events-Reads events (ground arith)
