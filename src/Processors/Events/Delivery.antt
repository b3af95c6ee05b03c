-- ===== src/Processors/Events/Delivery.antt =====
-- What a batch of internal/processors/postEventsProcessor.go does to the feeds, and what doing it
-- again adds.
use blog_go.Prelude.{
  ◌≡◌, refl, sym, ap, ◌∙◌, Bool, true, false, not, ◌&&◌, ◌||◌, ◌⊎◌, inl, inr, Bool-cases, List, [],
  ◌∷◌, ◌++◌, ◌==◌, arith, elem,
}
use mathlib.Core.Path.{ap₂, fun_ext}
use blog_go.Action.{ok}
use blog_go.Action.Laws.{Ensures, Ensures-bind, Ensures-pure, Ensures-fail}
use blog_go.Models.{unix_milli, Uuid, Time, Post}
use blog_go.Cache.{FeedCacher}
use blog_go.Database.{OutboxRow, OutboxMessageType, post_added, post_deleted, unknown_type}
use blog_go.Repositories.{UserRepository}
use blog_go.Processors.Events.{process_event, process_events}

-- A feed keeps whole milliseconds.
abbrev pub same_entry : Uuid → Time → Uuid → Time → Bool
same_entry id at p t = p == id && unix_milli t == unix_milli at

-- What the consumer needs of the follower lists and of the sorted sets (ZADD, ZREM): `has w s p t` says
-- that the feed of `s` has the entry of the post `p` made at `t`, `follows w a s` that `s` follows `a`.
pub record Delivery {W : Type 0} (feeds : FeedCacher W) (users : UserRepository W) : Type 0 where
  pub has : W → Uuid → Uuid → Time → Bool
  pub follows : W → Uuid → Uuid → Bool
  pub get_subs_ok :
      (a : Uuid) (w w' : W) (subs : List Uuid)
      → users.get_subs a w ≡ (ok subs, w')
      → ((s : Uuid) → elem s subs ≡ follows w a s)
        × ((b s : Uuid) → follows w' b s ≡ follows w b s)
        × ((s p : Uuid) (t : Time) → has w' s p t ≡ has w s p t)
  pub push_ok :
      (id : Uuid) (at : Time) (subs : List Uuid) (w w' : W)
      → feeds.push_to_feeds id at subs w ≡ (ok tt, w')
      → ((b s : Uuid) → follows w' b s ≡ follows w b s)
        × ((s p : Uuid) (t : Time)
            → has w' s p t ≡ (has w s p t || (elem s subs && same_entry id at p t)))
  pub remove_ok :
      (id : Uuid) (at : Time) (subs : List Uuid) (w w' : W)
      → feeds.remove_from_feeds id at subs w ≡ (ok tt, w')
      → ((b s : Uuid) → follows w' b s ≡ follows w b s)
        × ((s p : Uuid) (t : Time)
            → has w' s p t ≡ (has w s p t && not (elem s subs && same_entry id at p t)))

-- The specification: an event sets or clears its own entry in the feeds of the author's followers.
unfoldable pub deliver_one : OutboxMessageType → Post → (Uuid → Bool) → Uuid → Time → Bool → Bool
deliver_one post_added post followed p t h =
    h || (followed post.author_id && same_entry post.id post.created_at p t)
deliver_one post_deleted post followed p t h =
    h && not (followed post.author_id && same_entry post.id post.created_at p t)
deliver_one (unknown_type s) post followed p t h = h

unfoldable pub deliver : List OutboxRow → (Uuid → Bool) → Uuid → Time → Bool → Bool
unfolding deliver_one
deliver [] followed p t h = h
deliver (e ∷ es) followed p t h =
    deliver es followed p t (deliver_one e.message_type e.payload followed p t h)

module _ {W : Type 0} {feeds : FeedCacher W} {users : UserRepository W}
    (d : Delivery feeds users) where
  -- From `w` to `w'` the follower lists have not changed, and each feed has what a specification says.
  pub record Delivered (f : (Uuid → Bool) → Uuid → Time → Bool → Bool) (w w' : W) : Type 0 where
    pub kept : (b s : Uuid) → d.follows w' b s ≡ d.follows w b s
    pub entry :
        (s p : Uuid) (t : Time) → d.has w' s p t ≡ f (λ a. d.follows w a s) p t (d.has w s p t)

  process_event-Ensures :
      (type : OutboxMessageType) (post : Post) (w : W)
      → Ensures
          (λ _ w'. Delivered (deliver_one type post) w w')
          (process_event feeds users type post w)
  unfolding process_event deliver_one
  process_event-Ensures post_added post w = Ensures-bind _ _ w λ subs u got. record {
    at = λ r w' pushed.
        let (listed, kept, same) = d.get_subs_ok post.author_id w u subs got in
        let (kept', entries) = d.push_ok post.id post.created_at subs u w' pushed in
        record {
          kept = λ b s. kept' b s ∙ kept b s;
          entry = λ s p t. ground (arith, listed s, same s p t, entries s p t);
        };
  }
  process_event-Ensures post_deleted post w = Ensures-bind _ _ w λ subs u got. record {
    at = λ r w' removed.
        let (listed, kept, same) = d.get_subs_ok post.author_id w u subs got in
        let (kept', entries) = d.remove_ok post.id post.created_at subs u w' removed in
        record {
          kept = λ b s. kept' b s ∙ kept b s;
          entry = λ s p t. ground (arith, listed s, same s p t, entries s p t);
        };
  }
  process_event-Ensures (unknown_type s) post w = Ensures-fail _ w

  pub process_events-Ensures :
      (events : List OutboxRow) (w : W)
      → Ensures (λ _ w'. Delivered (deliver events) w w') (process_events feeds users events w)
  unfolding process_events deliver
  process_events-Ensures [] w =
      Ensures-pure tt w (record { kept = λ b s. refl; entry = λ s p t. refl })
  process_events-Ensures (e ∷ events) w = Ensures-bind _ _ w λ r u first. record {
    at = λ r' w' rest.
        let one = (process_event-Ensures e.message_type e.payload w).at r u first in
        let more = (process_events-Ensures events u).at r' w' rest in
        record {
          kept = λ b s. more.kept b s ∙ one.kept b s;
          entry = λ s p t.
              more.entry s p t
              ∙ ap₂ (λ g h. deliver events g p t h) (fun_ext (λ a. one.kept a s)) (one.entry s p t);
        };
  }

or_true : (h : Bool) → (h || true) ≡ true
or_true h = ground arith

or_false : (h : Bool) → (h || false) ≡ h
or_false h = ground arith

module _ (followed : Uuid → Bool) (p : Uuid) (t : Time) where
  deliver_one-cases :
      (type : OutboxMessageType) (post : Post)
      → ((h : Bool) → deliver_one type post followed p t h ≡ h)
        ⊎ ((c : Bool) × ((h : Bool) → deliver_one type post followed p t h ≡ c))
  unfolding deliver_one
  deliver_one-cases post_added post =
      elim (Bool-cases (followed post.author_id && same_entry post.id post.created_at p t)) [
        | inl hit ↦ inr (true, λ h. rw hit (or_true h))
        | inr miss ↦ inl (λ h. rw miss (or_false h))
      ]
  deliver_one-cases post_deleted post =
      elim (Bool-cases (followed post.author_id && same_entry post.id post.created_at p t)) [
        | inl hit ↦ inr (false, λ h. rw hit (ground arith))
        | inr miss ↦ inl (λ h. rw miss (ground arith))
      ]
  deliver_one-cases (unknown_type s) post = inl (λ h. refl)

  -- A batch leaves an entry as it is, or settles it: the last event that concerns it wins.
  deliver-cases :
      (events : List OutboxRow)
      → ((h : Bool) → deliver events followed p t h ≡ h)
        ⊎ ((c : Bool) × ((h : Bool) → deliver events followed p t h ≡ c))
  unfolding deliver
  deliver-cases [] = inl (λ h. refl)
  deliver-cases (e ∷ events) = elim (deliver-cases events) [
    | inr (c, settled) ↦ inr (c, λ h. settled _)
    | inl same ↦ elim (deliver_one-cases e.message_type e.payload) [
      | inl first ↦ inl (λ h. same _ ∙ first h)
      | inr (c, first) ↦ inr (c, λ h. same _ ∙ first h)
    ]
  ]

  deliver-append :
      (xs ys : List OutboxRow) (h : Bool)
      → deliver (xs ++ ys) followed p t h ≡ deliver ys followed p t (deliver xs followed p t h)
  unfolding deliver
  deliver-append [] ys h = refl
  deliver-append (e ∷ xs) ys h = deliver-append xs ys _

  -- To deliver the start of a batch, and then the whole batch, is to deliver it once.
  deliver_again :
      (xs ys : List OutboxRow) (h : Bool)
      → deliver (xs ++ ys) followed p t (deliver xs followed p t h)
        ≡ deliver (xs ++ ys) followed p t h
  deliver_again xs ys h =
      rw (deliver-append xs ys _, deliver-append xs ys h)
        (ap (deliver ys followed p t) (elim (deliver-cases xs) [
          | inl same ↦ same _
          | inr (c, settled) ↦ settled _ ∙ sym (settled h)
        ]))

-- A batch that was delivered up to some event, and is then fetched and processed again from its
-- start, leaves every feed as one run of the whole batch does: the start is run once more, and the
-- feeds after the second run have the entries that the specification gives from the state before the
-- first. The follower lists and the feeds behave as `Delivery` says, and nobody else writes to them.
pub process_events-again :
    {W : Type 0} {feeds : FeedCacher W} {users : UserRepository W} (d : Delivery feeds users)
    (start rest : List OutboxRow) (w w1 w2 : W)
    → process_events feeds users start w ≡ (ok tt, w1)
    → process_events feeds users (start ++ rest) w1 ≡ (ok tt, w2)
    → (s p : Uuid) (t : Time)
    → d.has w2 s p t ≡ deliver (start ++ rest) (λ a. d.follows w a s) p t (d.has w s p t)
process_events-again d start rest w w1 w2 first again s p t =
    let one = (process_events-Ensures d start w).at tt w1 first in
    let two = (process_events-Ensures d (start ++ rest) w1).at tt w2 again in
    two.entry s p t
    ∙ ap₂ (λ g h. deliver (start ++ rest) g p t h) (fun_ext (λ a. one.kept a s)) (one.entry s p t)
    ∙ deliver_again (λ a. d.follows w a s) p t start rest (d.has w s p t)
