-- ===== src/Cache/Subs/Writes.antt =====
-- What the two transactions of internal/cache/subsCacher.go leave in the cached lists.
use mathlib.Core.List.{append_cancel_left, reverse-append}
use blog_go.Prelude.{
  ℕ, fun_ext, ◌≡◌, ◌≢◌, refl, sym, ap, ◌∙◌, subst, Bool, true, false, not, ◌&&◌, ◌||◌, inl, inr,
  Bool-cases, List, [], ◌∷◌, reverse, arith, any, ◌==◌, ==→eq, if◌then◌else◌, Text, codes, text_eq,
  text_eq→eq, text_eq_self,
}
use blog_go.Action.{ok}
use blog_go.Models.{Uuid}
use blog_go.Cache.Feed.{UuidCodes}
use blog_go.Cache.Subs.{
  Sets, SetCommand, sadd, srem, followers_key, subscriptions_key, subscribe_user_to,
  unsubscribe_user_from,
}
use blog_go.Cache.Subs.Redis.{IsRedisSets, is_nil, text_eq-to_text, text_eq-followers_key}
use blog_go.Cache.Subs.Lists.{InSync}

-- Whether a key's set has a member after the commands, given whether it had it before.
abbrev pub has_after : List SetCommand → Text → Text → Bool → Bool
has_after [] key m there = there
has_after (sadd k x ∷ cs) key m there =
    has_after cs key m (if text_eq k key && text_eq m x then true else there)
has_after (srem k x ∷ cs) key m there =
    has_after cs key m (if text_eq k key && text_eq m x then false else there)

-- A Redis that answers: EXISTS, and a transaction, which runs all of its commands.
pub record AnswersTx {R : Type 0} (sets : Sets R) (redis : IsRedisSets sets) : Type 0 where
  pub exists_answers : (k : Text) (r : R) → (n : ℕ) × ((sets.exists k r).0 ≡ ok n)
  pub exec_answers : (cs : List SetCommand) (r : R) → (sets.exec_tx cs r).0 ≡ ok tt
  pub exec_ok :
      (cs : List SetCommand) (r : R) (key m : Text)
      → any (text_eq m) (redis.members (sets.exec_tx cs r).1 key)
        ≡ has_after cs key m (any (text_eq m) (redis.members r key))

no_members : (ms : List Text) → ((m : Text) → any (text_eq m) ms ≡ false) → ms ≡ []
no_members [] h = refl
no_members (m ∷ ms) h = absurd (ground (arith, h m, text_eq_self m))

module _ (uuids : UuidCodes) where
  -- The keys of the two kinds of list differ in their last letters.
  keys_differ : (p q : Uuid) → subscriptions_key uuids p ≢ followers_key uuids q
  unfolding subscriptions_key followers_key
  keys_differ p q same =
      let shorter = append_cancel_left (codes "user:") _ _ same in
      let ends =
        sym (reverse-append (uuids.to_text p) (codes ":subscriptions"))
        ∙ ap reverse shorter
        ∙ reverse-append (uuids.to_text q) (codes ":followers") in
      ground arith

  text_eq-keys : (p q : Uuid) → text_eq (subscriptions_key uuids p) (followers_key uuids q) ≡ false
  text_eq-keys p q =
      elim (Bool-cases (text_eq (subscriptions_key uuids p) (followers_key uuids q))) [
        | inl same ↦ absurd (keys_differ p q (text_eq→eq _ _ same))
        | inr other ↦ other
      ]

  module _ {R : Type 0} {sets : Sets R} {redis : IsRedisSets sets} (answers : AnswersTx sets redis)
      (s a : Uuid) (r : R) where
    abbrev list_of : R → Uuid → List Text
    list_of r b = redis.members r (followers_key uuids b)

    subscribed-member :
        (b : Uuid) (m : Text)
        → any (text_eq m) (list_of (subscribe_user_to uuids sets s a r).1 b)
          ≡ (any (text_eq m) (list_of r b) || (a == b) && text_eq m (uuids.to_text s))
    unfolding subscribe_user_to
    subscribed-member b m =
        answers.exec_ok _ r (followers_key uuids b) m
        ∙ ground (arith, text_eq-keys s b, text_eq-followers_key uuids a b)

    unsubscribed-member :
        (b : Uuid) (m : Text)
        → any (text_eq m) (list_of (unsubscribe_user_from uuids sets s a r).1 b)
          ≡ (any (text_eq m) (list_of r b) && not ((a == b) && text_eq m (uuids.to_text s)))
    unfolding unsubscribe_user_from
    unsubscribed-member b m =
        answers.exec_ok _ r (followers_key uuids b) m
        ∙ ground (arith, text_eq-keys s b, text_eq-followers_key uuids a b)

    module _ (f f' : Uuid → Uuid → Bool) (sync : InSync uuids redis f r) where
      -- A list that is there gets the new follower, and a list that is not there stays away.
      pub subscribe_user_to-InSync :
          is_nil (list_of r a) ≡ false
          → ((b t : Uuid) → f' b t ≡ (f b t || (a == b) && t == s))
          → InSync uuids redis f' (subscribe_user_to uuids sets s a r).1
      subscribe_user_to-InSync there after b = elim (sync b) [
        | inl empty ↦ elim (Bool-cases (a == b)) [
          | inl same ↦
              let away : is_nil (list_of r a) ≡ true =
                subst (λ c. is_nil (list_of r c) ≡ true) (sym (==→eq a b same)) (ap is_nil empty) in
              absurd (ground arith)
          | inr other ↦ inl (
              no_members _ (λ m. ground (arith, subscribed-member b m, ap (any (text_eq m)) empty)))
        ]
        | inr (texts, right) ↦ inr (
          λ m h. elim (Bool-cases (any (text_eq m) (list_of r b))) [
            | inl listed ↦ texts m listed
            | inr not_listed ↦ (s, text_eq→eq _ _ (ground (arith, subscribed-member b m)))
          ],
          λ t. ground (
            arith,
            subscribed-member b (uuids.to_text t),
            right t,
            after b t,
            text_eq-to_text uuids t s,
          ),
        )
      ]

      pub unsubscribe_user_from-InSync :
          ((b t : Uuid) → f' b t ≡ (f b t && not ((a == b) && t == s)))
          → InSync uuids redis f' (unsubscribe_user_from uuids sets s a r).1
      unsubscribe_user_from-InSync after b = elim (sync b) [
        | inl empty ↦ inl (
            no_members _ (λ m. ground (arith, unsubscribed-member b m, ap (any (text_eq m)) empty)))
        | inr (texts, right) ↦ inr (
          λ m h. texts m (ground (arith, unsubscribed-member b m)),
          λ t. ground (
            arith,
            unsubscribed-member b (uuids.to_text t),
            right t,
            after b t,
            text_eq-to_text uuids t s,
          ),
        )
      ]

module _ {R : Type 0} (uuids : UuidCodes) {sets : Sets R} (redis : IsRedisSets sets) where
  pub same-InSync :
      (f f' : Uuid → Uuid → Bool) (r : R)
      → ((b t : Uuid) → f' b t ≡ f b t)
      → InSync uuids redis f r
      → InSync uuids redis f' r
  same-InSync f f' r same sync =
      subst (λ g. InSync uuids redis g r) (fun_ext (λ b. fun_ext (λ t. sym (same b t)))) sync

  -- Where the author's list is away, one more follower of the author leaves the lists right.
  pub away-InSync :
      (f f' : Uuid → Uuid → Bool) (s a : Uuid) (r : R)
      → redis.members r (followers_key uuids a) ≡ []
      → ((b t : Uuid) → f' b t ≡ (f b t || (a == b) && t == s))
      → InSync uuids redis f r
      → InSync uuids redis f' r
  away-InSync f f' s a r away after sync b = elim (Bool-cases (a == b)) [
    | inl same ↦
        inl (subst (λ c. redis.members r (followers_key uuids c) ≡ []) (==→eq a b same) away)
    | inr other ↦ elim (sync b) [
      | inl empty ↦ inl empty
      | inr (texts, right) ↦ inr (texts, λ t. right t ∙ ground (arith, after b t))
    ]
  ]

  -- One follower less.
  pub gone-InSync :
      (f f' : Uuid → Uuid → Bool) (s a : Uuid) (r : R)
      → redis.members r (followers_key uuids a) ≡ []
      → ((b t : Uuid) → f' b t ≡ (f b t && not ((a == b) && t == s)))
      → InSync uuids redis f r
      → InSync uuids redis f' r
  gone-InSync f f' s a r away after sync b = elim (Bool-cases (a == b)) [
    | inl same ↦
        inl (subst (λ c. redis.members r (followers_key uuids c) ≡ []) (==→eq a b same) away)
    | inr other ↦ elim (sync b) [
      | inl empty ↦ inl empty
      | inr (texts, right) ↦ inr (texts, λ t. right t ∙ ground (arith, after b t))
    ]
  ]
