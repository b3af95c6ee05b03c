-- ===== src/Database/Outbox.antt =====
-- internal/database/outbox.sql.go with the table of migration 00008. Events of one time stand in the
-- order in which they were added.
pub mod Pending
use blog_go.Prelude.{
  ℕ, ◌^◌, Bool, true, false, not, List, [], ◌∷◌, ◌++◌, map, leb, ◌==◌, if◌then◌else◌, filter, any,
  take, elem,
}
use blog_go.Errs.{pg_error}
use blog_go.Action.{ok, err}
use blog_go.Models.{Uuid, Post}
use blog_go.Database.{OutboxMessageType, OutboxRow, Query, post_added, post_deleted, unknown_type}

-- The values of `outbox_message_type`.
abbrev is_message_type : OutboxMessageType → Bool
is_message_type post_added = true
is_message_type post_deleted = true
is_message_type (unknown_type s) = false

unfoldable pub add_to_outbox : OutboxMessageType → Post → Query (Unit {0})
add_to_outbox message_type payload stamp t =
    if not (is_message_type message_type)
    then (err (pg_error "22P02"), t)
    else if any (λ r. r.id == stamp.uuid) t.outbox
    then (err (pg_error "23505"), t)
    else (
      ok tt,
      record t {
        outbox =
            t.outbox
            ++ record {
              id = stamp.uuid;
              message_type = message_type;
              payload = payload;
              created_at = stamp.now;
              processed_at = record { time = 0; valid = false };
            }
              ∷ [];
      },
    )

insert_by_age : OutboxRow → List OutboxRow → List OutboxRow
insert_by_age r [] = r ∷ []
insert_by_age r (s ∷ ss) =
    let later = s ∷ insert_by_age r ss in
    if leb r.created_at s.created_at then r ∷ s ∷ ss else later

-- `ORDER BY created_at`
unfoldable pub sort_by_age : List OutboxRow → List OutboxRow
unfolding insert_by_age
sort_by_age [] = []
sort_by_age (r ∷ rs) = insert_by_age r (sort_by_age rs)

unfoldable pub get_outbox_events : ℕ → Query (List OutboxRow)
get_outbox_events limit stamp t =
    if leb (2 ^ 31) limit
    then (err (pg_error "2201W"), t)
    else (ok (take limit (sort_by_age (filter (λ r. not r.processed_at.valid) t.outbox))), t)

unfoldable pub set_events_as_processed : List Uuid → Query (Unit {0})
set_events_as_processed ids stamp t = (
  ok tt,
  record t {
    outbox =
        map
          (λ (r : OutboxRow).
            if elem r.id ids
            then record r { processed_at = record { time = stamp.now; valid = true } }
            else r)
          t.outbox;
  },
)
