-- ===== src/Cache/Feed/Pages.antt =====
-- The pages that `GetFeedPostsIds` of internal/cache/feedCacher.go returns.
use blog_go.Prelude.{
  ℕ, zero, suc, ◌^◌, ◌≡◌, refl, ap, subst, ◌∙◌, true, ◌||◌, inl, inr, Bool-cases, none, some, List,
  [], ◌∷◌, ◌++◌, map, arith, leb, ◌==◌, filter, take, All, filter-All, text_ltb, text_ltb_irrefl,
  text_ltb_asymm, Text,
}
use blog_go.Action.{ok}
use blog_go.Action.Laws.{>>=-eq-ok}
use blog_go.Models.{Uuid, Time, PostPaginationCursor}
use blog_go.Cache.Feed.{
  UuidCodes, SortedSets, highest, feed_key, feed_member, start_of, to_post_ids, get_feed_posts_ids,
}
use blog_go.Cache.Feed.Members.{IsTime, id_part-member}
use blog_go.Cache.Feed.Contents.{IsRedis, IsDescending, is_in, limited}

-- A post in a feed.
pub record Entry : Type 0 where
  pub id : Uuid
  pub at : Time

-- The entries after the cursor's, or all of them.
abbrev pub cursor_at : Entry → PostPaginationCursor
cursor_at e = record { last_id = e.id; last_time = e.at }

below-none :
    (m : Text) (ms : List Text)
    → All (λ n. text_ltb n m ≡ true) ms
    → filter (λ n. text_ltb n m) ms ≡ ms
below-none m ms h = filter-All (λ n. text_ltb n m) ms h

All-last :
    (m last : Text) (ms after : List Text)
    → All (λ n. text_ltb n m ≡ true) (ms ++ last ∷ after)
    → text_ltb last m ≡ true
All-last m last [] after (h, hs) = h
All-last m last (n ∷ ms) after (h, hs) = All-last m last ms after hs

-- In a descending list, what is below a member is what comes after it.
below-after :
    (before : List Text) (last : Text) (after : List Text)
    → IsDescending (before ++ last ∷ after)
    → filter (λ n. text_ltb n last) (before ++ last ∷ after) ≡ after
below-after [] last after (h, hs) = ground (arith, text_ltb_irrefl last, below-none last after h)
below-after (m ∷ before) last after (h, hs) = ground (
  arith,
  text_ltb_asymm last m (All-last m last before after h),
  below-after before last after hs,
)

module _ (uuids : UuidCodes) where
  abbrev pub members_of : List Entry → List Text
  members_of = map (λ (e : Entry). feed_member uuids e.at e.id)

  ids_back :
      (es : List Entry)
      → All (λ e. IsTime e.at) es
      → to_post_ids uuids (members_of es) ≡ map (λ e. e.id) es
  unfolding to_post_ids
  ids_back [] h = refl
  ids_back (e ∷ es) (h, hs) =
      ground (arith, id_part-member uuids e.at e.id h, uuids.parse-to_text e.id, ids_back es hs)

  take-members : (n : ℕ) (es : List Entry) → take n (members_of es) ≡ members_of (take n es)
  take-members zero es = refl
  take-members (suc n) [] = refl
  take-members (suc n) (e ∷ es) = ap (λ l. feed_member uuids e.at e.id ∷ l) (take-members n es)

  limited-members :
      (n : ℕ) (es : List Entry) → limited n (members_of es) ≡ members_of (limited n es)
  limited-members n es = elim (Bool-cases (n == 0 || leb (2 ^ 63) n)) [
    | inl all ↦ rw all refl
    | inr few ↦ rw few (take-members n es)
  ]

  All-take :
      (n : ℕ) (es : List Entry) → All (λ e. IsTime e.at) es → All (λ e. IsTime e.at) (take n es)
  All-take zero es h = tt
  All-take (suc n) [] h = tt
  All-take (suc n) (e ∷ es) (h, hs) = (h, All-take n es hs)

  All-limited :
      (n : ℕ) (es : List Entry) → All (λ e. IsTime e.at) es → All (λ e. IsTime e.at) (limited n es)
  All-limited n es h = elim (Bool-cases (n == 0 || leb (2 ^ 63) n)) [
    | inl all ↦ rw all h
    | inr few ↦ rw few (All-take n es h)
  ]

  page_back :
      (n : ℕ) (es : List Entry)
      → All (λ e. IsTime e.at) es
      → to_post_ids uuids (limited n (members_of es)) ≡ map (λ e. e.id) (limited n es)
  page_back n es h =
      ap (to_post_ids uuids) (limited-members n es) ∙ ids_back (limited n es) (All-limited n es h)

All-after : (xs ys : List Entry) → All (λ e. IsTime e.at) (xs ++ ys) → All (λ e. IsTime e.at) ys
All-after [] ys h = h
All-after (x ∷ xs) ys (h, hs) = All-after xs ys hs

filter-highest : (ms : List Text) → filter (is_in highest) ms ≡ ms
filter-highest [] = refl
filter-highest (m ∷ ms) = ground (arith, filter-highest ms)

members-append :
    (uuids : UuidCodes) (before : List Entry) (last : Entry) (after : List Entry)
    → members_of uuids (before ++ last ∷ after)
      ≡ members_of uuids before ++ feed_member uuids last.at last.id ∷ members_of uuids after
members-append uuids [] last after = refl
members-append uuids (e ∷ before) last after =
    ap (λ l. feed_member uuids e.at e.id ∷ l) (members-append uuids before last after)

module _ {W : Type 0} (uuids : UuidCodes) {sets : SortedSets W} (redis : IsRedis sets)
    (user_id : Uuid) (limit : ℕ) (w w' : W) (ids : List Uuid) where
  -- The first page of a feed has its first posts, as many as the limit says, or all of them for a
  -- limit of 0 or a negative one: for a feed whose members are those of posts with times in range.
  pub get_feed_posts_ids-first :
      (es : List Entry)
      → All (λ e. IsTime e.at) es
      → redis.members w (feed_key uuids user_id) ≡ members_of uuids es
      → get_feed_posts_ids uuids sets user_id none limit w ≡ (ok ids, w')
      → ids ≡ map (λ e. e.id) (limited limit es)
  unfolding get_feed_posts_ids start_of
  get_feed_posts_ids-first es times stored got =
      let (ms, u, read, returned) = >>=-eq-ok _ _ w got in
      let range = redis.zrange_ok _ _ _ w u ms read in
      let here : ids ≡ to_post_ids uuids ms = ground arith in
      here
      ∙ ap (to_post_ids uuids) (
          range
          ∙ ap (limited limit) (filter-highest (redis.members w (feed_key uuids user_id)) ∙ stored))
      ∙ page_back uuids limit es times

  -- The page after a cursor goes on exactly behind the cursor's post: nothing is left out and nothing
  -- comes twice, also among posts of one millisecond, for a cursor that was made from a post of the
  -- feed, under the same conditions.
  pub get_feed_posts_ids-next :
      (before : List Entry) (last : Entry) (after : List Entry)
      → All (λ e. IsTime e.at) (before ++ last ∷ after)
      → redis.members w (feed_key uuids user_id) ≡ members_of uuids (before ++ last ∷ after)
      → get_feed_posts_ids uuids sets user_id (some (cursor_at last)) limit w ≡ (ok ids, w')
      → ids ≡ map (λ e. e.id) (limited limit after)
  unfolding get_feed_posts_ids start_of
  get_feed_posts_ids-next before last after times stored got =
      let (ms, u, read, returned) = >>=-eq-ok _ _ w got in
      let range = redis.zrange_ok _ _ _ w u ms read in
      let parts = stored ∙ members-append uuids before last after in
      let here : ids ≡ to_post_ids uuids ms = ground arith in
      here
      ∙ ap (to_post_ids uuids) (
          range
          ∙ ap (λ l. limited limit (filter (λ n. text_ltb n (feed_member uuids last.at last.id)) l))
              parts
          ∙ ap (limited limit) (
              below-after (members_of uuids before) (feed_member uuids last.at last.id)
                (members_of uuids after)
                (subst IsDescending parts (redis.descending w (feed_key uuids user_id)))))
      ∙ page_back uuids limit after (All-after before (last ∷ after) times).1
