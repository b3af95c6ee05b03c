-- ===== src/Repositories/Posts/Publishing.antt =====
-- The tables after `AddPost` of internal/repositories/postRepository.go.
use blog_go.Prelude.{◌≡◌, ◌≢◌, refl, ap, ◌∙◌, false, ◌⊎◌, inl, inr, List, [], ◌∷◌, ◌++◌, map, arith}
use mathlib.Core.List.{append_assoc, append-nil}
use blog_go.Action.{ok}
use blog_go.Action.Laws.{Ensures, Ensures-bind, Ensures-pure, map_err-state, map_err-ok}
use blog_go.Action.Keeps.{Keeps, Keeps-bind, keeps_rules}
use blog_go.Models.{Post}
use blog_go.Database.{Db, Tables, Stamp, PostRow, PostMedium, OutboxRow, post_added}
use blog_go.Database.Posts
use blog_go.Database.Posts.{has_equal_places, stored_medium}
use blog_go.Database.Outbox.{add_to_outbox}
use blog_go.Repositories.Transaction.{Tx, exec_transaction}
use blog_go.Repositories.Transaction.Atomicity.{
  Untouched, tx_exec-Untouched, tx_exec-eq-ok, exec_transaction_atomic,
}
use blog_go.Repositories.Posts.{
  to_post_params, to_add_post_attachments_params, add_media_in, add_post_in, add_post_error,
  add_post,
}

add_media_in-Untouched : (t : Tables) (ms : List PostMedium) → Keeps (Untouched t) (add_media_in ms)
unfolding add_media_in
add_media_in-Untouched t [] = search keeps_rules
add_media_in-Untouched t (m ∷ ms) =
    Keeps-bind _ _ (tx_exec-Untouched t _) (λ _ _ _. add_media_in-Untouched t ms)

add_post_in-Untouched : (t : Tables) (post : Post) → Keeps (Untouched t) (add_post_in post)
unfolding add_post_in
add_post_in-Untouched t post = search (keeps_rules, tx_exec-Untouched, add_media_in-Untouched)

-- The event of a new post.
abbrev pub added_event : Stamp → Post → OutboxRow
added_event stamp post = record {
  id = stamp.uuid;
  message_type = post_added;
  payload = post;
  created_at = stamp.now;
  processed_at = record { time = 0; valid = false };
}

-- The tables with a post, its media and one event.
abbrev pub published : Stamp → Post → Tables → Tables
published stamp post t = record t {
  posts = t.posts ++ Posts.stored_row (to_post_params post) ∷ [];
  post_media = t.post_media ++ map stored_medium (to_add_post_attachments_params post.attached);
  outbox = t.outbox ++ added_event stamp post ∷ [];
}

media_added :
    (m : PostMedium) (stamp : Stamp) (t t' : Tables)
    → Posts.add_post_media m stamp t ≡ (ok tt, t')
    → t' ≡ record t { post_media = t.post_media ++ stored_medium m ∷ [] }
unfolding Posts.add_post_media
media_added m stamp t t' h = ground arith

post_added_to :
    (p : PostRow) (stamp : Stamp) (t t' : Tables)
    → Posts.add_post p stamp t ≡ (ok tt, t')
    → t' ≡ record t { posts = t.posts ++ Posts.stored_row p ∷ [] }
unfolding Posts.add_post
post_added_to p stamp t t' h = ground arith

event_added :
    (post : Post) (stamp : Stamp) (t t' : Tables)
    → add_to_outbox post_added post stamp t ≡ (ok tt, t')
    → t' ≡ record t { outbox = t.outbox ++ added_event stamp post ∷ [] }
unfolding add_to_outbox
event_added post stamp t t' h = ground arith

abbrev with_media : Tables → List PostMedium → Tables
with_media t ms = record t { post_media = t.post_media ++ map stored_medium ms }

add_media_in-view :
    (ms : List PostMedium) (tx : Tx)
    → Ensures (λ _ tx'. tx'.view ≡ with_media tx.view ms) (add_media_in ms tx)
unfolding add_media_in
add_media_in-view [] tx = Ensures-pure tt tx (rw append-nil refl)
add_media_in-view (m ∷ ms) tx = Ensures-bind _ _ tx λ done mid added. record {
  at = λ d tx' e.
      let rest = (add_media_in-view ms mid).at d tx' e in
      let here =
        media_added m _ tx.view mid.view (tx_exec-eq-ok (Posts.add_post_media m) tx mid tt added) in
      rest
      ∙ ap (λ (t : Tables). with_media t ms) here
      ∙ ap (λ (l : List PostMedium). record (tx.view) { post_media = l })
          (append_assoc tx.view.post_media (stored_medium m ∷ []) (map stored_medium ms));
}

add_post_in-view :
    (post : Post) (tx : Tx)
    → Ensures
        (λ _ tx'. (stamp : Stamp) × (tx'.view ≡ published stamp post tx.view))
        (add_post_in post tx)
unfolding add_post_in
add_post_in-view post tx = Ensures-bind _ _ tx λ d1 t1 e1. Ensures-bind _ _ t1 λ d2 t2 e2. record {
  at = λ d3 t3 e3.
      let a = post_added_to (to_post_params post) _ tx.view t1.view (tx_exec-eq-ok _ tx t1 tt e1) in
      let b = (add_media_in-view (to_add_post_attachments_params post.attached) t1).at d2 t2 e2 in
      let stamp = t2.pool.stamps t2.pool.tick in
      let c = event_added post stamp t2.view t3.view (tx_exec-eq-ok _ t2 t3 tt e3) in (stamp, cc);
}

-- `AddPost` publishes everything or nothing, whatever the database answers: the committed tables are
-- the old ones and the call failed, or they have the post, all its media and exactly one event for the
-- outbox, and no two media of one post in the same place.
pub add_post-atomic :
    (post : Post) (db : Db)
    → (((add_post post db).1.tables ≡ db.tables) × ((add_post post db).0 ≢ ok tt))
      ⊎ ((stamp : Stamp) × ((add_post post db).1.tables ≡ published stamp post db.tables)
          × (has_equal_places (add_post post db).1.tables.post_media ≡ false))
unfolding add_post
add_post-atomic post db =
    let m = exec_transaction (add_post_in post) in
    let state = ap (λ (d : Db). d.tables) (map_err-state add_post_error m db) in
    elim (exec_transaction_atomic (add_post_in post) db (add_post_in-Untouched db.tables post)) [
      | inl (same, failed) ↦ inl (state ∙ same, λ h. failed (map_err-ok add_post_error m db tt h))
      | inr (start, final, opened, ran, written, distinct) ↦
          let (stamp, seen) = (add_post_in-view post start).at tt final ran in
          inr (
            stamp,
            state ∙ written ∙ seen ∙ ap (published stamp post) opened,
            ap (λ (t : Tables). has_equal_places t.post_media) (state ∙ written) ∙ distinct,
          )
    ]
