-- ===== src/Cache/Subs/Lists.antt =====
-- The cached lists of internal/cache/subsCacher.go against the followers that a table has.
use blog_go.Prelude.{
  ℕ, ◌≡◌, ◌⊎◌, refl, sym, ap, ◌∙◌, subst, Bool, true, false, ◌||◌, inl, inr, Bool-cases, List, [],
  ◌∷◌, map, arith, any, ◌==◌, ==→eq, if◌then◌else◌, elem, Text, text_eq,
}
use blog_go.Errs.{Error}
use blog_go.Action.{ok, Action, fail, ◌>>=◌, branch, map_err}
use blog_go.Action.Laws.{>>=-eq-ok, map_err-eq-ok}
use blog_go.Action.Keeps.{Keeps, keeps_rules}
use blog_go.Models.{Uuid}
use blog_go.Cache.Feed.{UuidCodes}
use blog_go.Cache.Subs.{Sets, followers_key, parse_all, read_follows, get_follows, set_follows}
use blog_go.Cache.Subs.Redis.{
  IsRedisSets, is_nil, AreTexts, elem-parse_all, parse_all-AreTexts, any-map-to_text,
  map-to_text-AreTexts, text_eq-followers_key,
}

passed_check :
    {R A : Type 0} {l : A} {r' : R} (e : Error) (b : Bool) (m : Action R A) (u : R)
    → (if b then fail e else m) u ≡ (ok l, r')
    → (b ≡ false) × (m u ≡ (ok l, r'))
passed_check e true m u h = absurd (ground arith)
passed_check e false m u h = (refl, h)

module _ {R : Type 0} (uuids : UuidCodes) {sets : Sets R} (redis : IsRedisSets sets)
    (follows : Uuid → Uuid → Bool) where
  -- A list is not there, or has exactly the followers.
  abbrev pub IsRight : Uuid → List Text → Type 0
  IsRight a ms =
      (ms ≡ [])
      ⊎ (AreTexts uuids ms × ((s : Uuid) → any (text_eq (uuids.to_text s)) ms ≡ follows a s))

  abbrev pub InSync : R → Type 0
  InSync r = (a : Uuid) → IsRight a (redis.members r (followers_key uuids a))

  pub kept :
      (r r' : R)
      → ((key : Text) → redis.members r' key ≡ redis.members r key)
      → InSync r
      → InSync r'
  kept r r' same sync a = subst (IsRight a) (sym (same (followers_key uuids a))) (sync a)

  pub exists-InSync : (k : Text) → Keeps InSync (sets.exists k)
  exists-InSync k = record { at = λ r sync. kept r _ (redis.exists_keeps k r) sync }

  smembers-InSync : (k : Text) → Keeps InSync (sets.smembers k)
  smembers-InSync k = record { at = λ r sync. kept r _ (redis.smembers_keeps k r) sync }

  read_follows-InSync : (a : Uuid) → Keeps InSync (read_follows uuids sets a)
  unfolding read_follows
  read_follows-InSync a = search (keeps_rules, smembers-InSync)

  pub get_follows-InSync : (a : Uuid) → Keeps InSync (get_follows uuids sets a)
  unfolding get_follows
  get_follows-InSync a = search (keeps_rules, exists-InSync, read_follows-InSync)

  read_follows-right :
      (a : Uuid) (r r' : R) (l : List Uuid)
      → AreTexts uuids (redis.members r (followers_key uuids a))
      → read_follows uuids sets a r ≡ (ok l, r')
      → (s : Uuid)
      → elem s l ≡ any (text_eq (uuids.to_text s)) (redis.members r (followers_key uuids a))
  unfolding read_follows
  read_follows-right a r r' l texts got s =
      let (ms, u, members, parsed) = >>=-eq-ok _ _ r got in
      let listed = redis.smembers_ok _ r u ms (map_err-eq-ok _ _ r members) in
      let done : parse_all uuids ms ≡ ok l = ground arith in
      elem-parse_all uuids _ l s texts (ap (parse_all uuids) (sym listed) ∙ done)

  -- A list that is returned has exactly the followers.
  pub get_follows-right :
      (a : Uuid) (r r' : R) (l : List Uuid)
      → InSync r
      → get_follows uuids sets a r ≡ (ok l, r')
      → (s : Uuid) → elem s l ≡ follows a s
  unfolding get_follows
  get_follows-right a r r' l sync got s =
      let key = followers_key uuids a in
      let (n, u, counted, rest) = >>=-eq-ok _ _ r got in
      let there = redis.exists_ok key r u n (map_err-eq-ok _ _ r counted) in
      let same : redis.members u key ≡ redis.members r key =
        ap (λ x. redis.members x key) (sym (ap (λ p. p.1) (map_err-eq-ok _ _ r counted)))
        ∙ redis.exists_keeps key r key in
      let (present, read) = passed_check _ (n == 0) (read_follows uuids sets a) u rest in
      elim (sync a) [
        | inl empty ↦ absurd (ground (arith, there, ap is_nil empty, present))
        | inr (texts, right) ↦
            read_follows-right a u r' l (subst (AreTexts uuids) (sym same) texts) read s
            ∙ ap (any (text_eq (uuids.to_text s))) same
            ∙ right s
      ]

  module _ (a : Uuid) (r : R)
      (exists_answers : (k : Text) (u : R) → (n : ℕ) × ((sets.exists k u).0 ≡ ok n))
      (smembers_answers : (k : Text) (u : R) → (ms : List Text) × ((sets.smembers k u).0 ≡ ok ms))
      (sync : InSync r) where
    read_follows-answers :
        is_nil (redis.members r (followers_key uuids a)) ≡ false
        → (l : List Uuid) × ((read_follows uuids sets a r).0 ≡ ok l)
    unfolding read_follows ◌>>=◌ branch map_err
    read_follows-answers there =
        let key = followers_key uuids a in
        let (ms, listed) = smembers_answers key r in
        let same = redis.smembers_ok key r (sets.smembers key r).1 ms (ground arith) in
        elim (sync a) [
          | inl empty ↦ absurd (ground (arith, ap is_nil empty))
          | inr (texts, right) ↦
              let (l, parsed) =
                parse_all-AreTexts uuids ms (subst (AreTexts uuids) (sym same) texts) in
              (l, rw listed (rw parsed refl))
        ]

  -- A list that is there is returned, where Redis answers the reads.
  pub get_follows-answers :
      (a : Uuid) (r : R)
      → ((k : Text) (u : R) → (n : ℕ) × ((sets.exists k u).0 ≡ ok n))
      → ((k : Text) (u : R) → (ms : List Text) × ((sets.smembers k u).0 ≡ ok ms))
      → InSync r
      → is_nil (redis.members r (followers_key uuids a)) ≡ false
      → (l : List Uuid) × ((get_follows uuids sets a r).0 ≡ ok l)
  unfolding get_follows ◌>>=◌ branch map_err
  get_follows-answers a r exists_answers smembers_answers sync there =
      let key = followers_key uuids a in
      let (n, counted) = exists_answers key r in
      let u = (sets.exists key r).1 in
      let some_there = redis.exists_ok key r u n (ground arith) in
      let kept_sync = kept r u (redis.exists_keeps key r) sync in
      let (l, read) =
        read_follows-answers a u exists_answers smembers_answers kept_sync
          (ap is_nil (redis.exists_keeps key r key) ∙ there) in
      (l, rw counted (rw (some_there ∙ there) read))

  -- What SADD leaves of a right list, given the followers.
  added-IsRight :
      (a : Uuid) (ids : List Uuid) (old new : List Text)
      → IsRight a old
      → ((s : Uuid) → elem s ids ≡ follows a s)
      → ((m : Text)
          → any (text_eq m) new ≡ (any (text_eq m) old || any (text_eq m) (map uuids.to_text ids)))
      → IsRight a new
  added-IsRight a ids old new was right union = inr (texts_of was, listed was)
    where
      texts_of : IsRight a old → AreTexts uuids new
      texts_of (inl empty) m h =
          map-to_text-AreTexts uuids ids m (ground (arith, union m, ap (any (text_eq m)) empty))
      texts_of (inr (texts, _)) m h = elim (Bool-cases (any (text_eq m) old)) [
        | inl there ↦ texts m there
        | inr not_there ↦ map-to_text-AreTexts uuids ids m (ground (arith, union m))
      ]

      listed : IsRight a old → (s : Uuid) → any (text_eq (uuids.to_text s)) new ≡ follows a s
      listed (inl empty) s =
          let m = uuids.to_text s in
          ground (arith, union m, ap (any (text_eq m)) empty, any-map-to_text uuids s ids, right s)
      listed (inr (_, same)) s =
          ground (arith, union (uuids.to_text s), same s, any-map-to_text uuids s ids, right s)

  -- A list that is written with the followers leaves the cache in sync, also where Redis fails.
  pub set_follows-InSync :
      (a : Uuid) (ids : List Uuid) (r : R)
      → InSync r
      → ((s : Uuid) → elem s ids ≡ follows a s)
      → InSync (set_follows uuids sets a ids r).1
  unfolding set_follows
  set_follows-InSync a [] r sync right b = sync b
  set_follows-InSync a (id ∷ ids) r sync right b =
      let key = followers_key uuids a in
      let texts = map uuids.to_text (id ∷ ids) in
      elim (Bool-cases (a == b)) [
        | inr other ↦
            subst (IsRight b)
              (sym (
                redis.sadd_elsewhere key texts r (followers_key uuids b)
                  (text_eq-followers_key uuids a b ∙ other)))
              (sync b)
        | inl same ↦
            let at : a ≡ b = ==→eq a b same in
            subst
              (λ c. IsRight c (redis.members (sets.sadd_all key texts r).1 (followers_key uuids c)))
              at
              (elim (redis.sadd_there key texts r) [
                | inl unchanged ↦ subst (IsRight a) (sym unchanged) (sync a)
                | inr union ↦ added-IsRight a (id ∷ ids) _ _ (sync a) right union
              ])
      ]
