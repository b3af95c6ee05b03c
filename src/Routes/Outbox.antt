-- ===== src/Routes/Outbox.antt =====
-- The event processor that internal/routes/routes.go starts, over the world of the application.
pub mod Deliveries
pub mod Drained
use blog_go.Prelude.{ℕ, zero, suc}
use blog_go.Action.{Action}
use blog_go.Database.{pool_exec}
use blog_go.Database.Outbox.{get_outbox_events, set_events_as_processed}
use blog_go.Processors.Events.{OutboxQueries, fetch_and_process}
use blog_go.Routes.World.{World, Parts, in_db, world_users, world_feeds}

module _ {R M : Type 0} where
  unfoldable pub world_outbox : OutboxQueries (World R M)
  unfolding in_db
  world_outbox = record {
    get_outbox_events = λ limit. in_db (pool_exec (get_outbox_events limit));
    set_events_as_processed = λ ids. in_db (pool_exec (set_events_as_processed ids));
  }

module _ {R M : Type 0} (parts : Parts R M) (limit : ℕ) where
  -- One cycle with the feeds and the repository that `CreateRouter` passes, not the cached one.
  unfoldable pub cycle : Action (World R M) (Unit {0})
  unfolding world_outbox
  cycle = fetch_and_process world_outbox (world_feeds parts) world_users limit

  unfoldable pub cycles : ℕ → World R M → World R M
  unfolding cycle
  cycles zero w = w
  cycles (suc n) w = cycles n (cycle w).1
