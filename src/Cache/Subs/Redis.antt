-- ===== src/Cache/Subs/Redis.antt =====
-- What internal/cache/subsCacher.go relies on of Redis sets, and its keys and members.
use mathlib.Core.List.{append_cancel_left, append_cancel_right}
use blog_go.Prelude.{
  ℕ, ◌≡◌, ◌⊎◌, refl, ap, ◌∙◌, Bool, true, false, ◌||◌, inl, inr, Bool-cases, List, [], ◌∷◌, map,
  arith, any, ◌==◌, elem, Text, codes, text_eq, text_eq→eq, text_eq_self,
}
use blog_go.Action.{ok}
use blog_go.Action.Laws.{Result-cases}
use blog_go.Models.{Uuid}
use blog_go.Cache.Feed.{UuidCodes}
use blog_go.Cache.Feed.Members.{to_text_inj}
use blog_go.Cache.Subs.{Sets, followers_key, parse_all}

abbrev pub is_nil : List Text → Bool
is_nil [] = true
is_nil (m ∷ ms) = false

-- A key exists where its set has members; SADD adds its members to its key's set, or has not run; the
-- two reads change nothing.
pub record IsRedisSets {R : Type 0} (sets : Sets R) : Type 0 where
  pub members : R → Text → List Text
  pub exists_keeps :
      (k : Text) (r : R) (key : Text) → members (sets.exists k r).1 key ≡ members r key
  pub exists_ok :
      (k : Text) (r r' : R) (n : ℕ) → sets.exists k r ≡ (ok n, r') → (n == 0) ≡ is_nil (members r k)
  pub smembers_keeps :
      (k : Text) (r : R) (key : Text) → members (sets.smembers k r).1 key ≡ members r key
  pub smembers_ok :
      (k : Text) (r r' : R) (ms : List Text) → sets.smembers k r ≡ (ok ms, r') → ms ≡ members r k
  pub sadd_elsewhere :
      (k : Text) (ms : List Text) (r : R) (key : Text)
      → text_eq k key ≡ false
      → members (sets.sadd_all k ms r).1 key ≡ members r key
  pub sadd_there :
      (k : Text) (ms : List Text) (r : R)
      → (members (sets.sadd_all k ms r).1 k ≡ members r k)
        ⊎ ((m : Text)
            → any (text_eq m) (members (sets.sadd_all k ms r).1 k)
              ≡ (any (text_eq m) (members r k) || any (text_eq m) ms))

module _ (uuids : UuidCodes) where
  followers_key_inj : (p q : Uuid) → followers_key uuids p ≡ followers_key uuids q → p ≡ q
  unfolding followers_key
  followers_key_inj p q e =
      to_text_inj uuids p q
        (append_cancel_right _ _ (codes ":followers") (append_cancel_left (codes "user:") _ _ e))

  pub text_eq-to_text : (p q : Uuid) → text_eq (uuids.to_text p) (uuids.to_text q) ≡ (p == q)
  text_eq-to_text p q = elim (Bool-cases (text_eq (uuids.to_text p) (uuids.to_text q))) [
    | inl same ↦ ground (arith, to_text_inj uuids p q (text_eq→eq _ _ same))
    | inr other ↦ ground (arith, text_eq_self (uuids.to_text p))
  ]

  pub text_eq-followers_key :
      (p q : Uuid) → text_eq (followers_key uuids p) (followers_key uuids q) ≡ (p == q)
  text_eq-followers_key p q =
      elim (Bool-cases (text_eq (followers_key uuids p) (followers_key uuids q))) [
        | inl same ↦ ground (arith, followers_key_inj p q (text_eq→eq _ _ same))
        | inr other ↦ ground (arith, text_eq_self (followers_key uuids p))
      ]

  -- Every member is the text of an identifier.
  abbrev pub AreTexts : List Text → Type 0
  AreTexts ms = (m : Text) → any (text_eq m) ms ≡ true → (id : Uuid) × (m ≡ uuids.to_text id)

  pub elem-parse_all :
      (ms : List Text) (ids : List Uuid) (s : Uuid)
      → AreTexts ms
      → parse_all uuids ms ≡ ok ids
      → elem s ids ≡ any (text_eq (uuids.to_text s)) ms
  unfolding parse_all
  elem-parse_all [] ids s texts h = ground arith
  elem-parse_all (m ∷ ms) ids s texts h =
      let (id, named) = texts m (ground (arith, text_eq_self m)) in
      let parsed : uuids.parse m ≡ ok id = ap uuids.parse named ∙ uuids.parse-to_text id in
      elim (Result-cases (parse_all uuids ms)) [
        | inr (e, failed) ↦ absurd (ground arith)
        | inl (rest, done) ↦ ground (
          arith,
          elem-parse_all ms rest s (λ k listed. texts k (ground arith)) done,
          text_eq-to_text s id,
          ap (text_eq (uuids.to_text s)) named,
        )
      ]

  pub any-map-to_text :
      (s : Uuid) (ids : List Uuid)
      → any (text_eq (uuids.to_text s)) (map uuids.to_text ids) ≡ elem s ids
  any-map-to_text s [] = refl
  any-map-to_text s (id ∷ ids) = ground (arith, any-map-to_text s ids, text_eq-to_text s id)

  pub map-to_text-AreTexts : (ids : List Uuid) → AreTexts (map uuids.to_text ids)
  map-to_text-AreTexts [] m h = absurd (ground arith)
  map-to_text-AreTexts (id ∷ ids) m h = elim (Bool-cases (text_eq m (uuids.to_text id))) [
    | inl same ↦ (id, text_eq→eq _ _ same)
    | inr other ↦ map-to_text-AreTexts ids m (ground arith)
  ]

  -- A set of texts of identifiers is read in full.
  pub parse_all-AreTexts :
      (ms : List Text) → AreTexts ms → (ids : List Uuid) × (parse_all uuids ms ≡ ok ids)
  unfolding parse_all
  parse_all-AreTexts [] texts = ([], refl)
  parse_all-AreTexts (m ∷ ms) texts =
      let (id, named) = texts m (ground (arith, text_eq_self m)) in
      let parsed : uuids.parse m ≡ ok id = ap uuids.parse named ∙ uuids.parse-to_text id in
      let (ids, rest) = parse_all-AreTexts ms (λ k listed. texts k (ground arith)) in
      (id ∷ ids, ground arith)
