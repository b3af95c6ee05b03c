-- ===== src/Cache/Feed/Members.antt =====
-- The members and keys of internal/cache/feedCacher.go: what they are read back as, and their order.
use mathlib.Core.List.{append_cancel_left, append_cancel_right}
use blog_go.Prelude.{
  ℕ, zero, suc, ◌+◌, ◌^◌, ◌<◌, ◌≡◌, sym, ap, ◌∙◌, ◌&&◌, ◌||◌, inl, inr, Bool-cases, some, ◌∷◌,
  arith, ltb, ◌==◌, codes, cut, cut-append, digits, digits_inj, elem-digits, text_ltb,
  text_ltb-digits, text_eq, text_eq→eq, text_eq_self,
}
use blog_go.Models.{Uuid, Time, unix_milli}
use blog_go.Cache.Feed.{UuidCodes, width, feed_member, feed_key, id_part}

-- The milliseconds fit an int64.
abbrev pub IsTime : Time → Type 0
IsTime at = unix_milli at < 2 ^ 63

width_fits : (fuel w n : ℕ) → n < 10 ^ (w + fuel) → n < 10 ^ width fuel w n
unfolding width
width_fits zero w n h = ground arith
width_fits (suc fuel) w n h = ground (arith, width_fits fuel (suc w) n)

padded_fits : (at : Time) → IsTime at → unix_milli at < 10 ^ width 6 13 (unix_milli at)
padded_fits at h = width_fits 6 13 (unix_milli at) (omega arith)

module _ (uuids : UuidCodes) where
  cut-member :
      (at : Time) (id : Uuid)
      → IsTime at
      → cut b':' (feed_member uuids at id)
        ≡ some (digits (width 6 13 (unix_milli at)) (unix_milli at), uuids.to_text id)
  unfolding feed_member
  cut-member at id h =
      cut-append 58 (digits (width 6 13 (unix_milli at)) (unix_milli at)) (uuids.to_text id)
        (elem-digits _ _ (padded_fits at h))

  pub id_part-member :
      (at : Time) (id : Uuid)
      → IsTime at
      → id_part uuids (feed_member uuids at id) ≡ uuids.to_text id
  unfolding id_part
  id_part-member at id h = ground (arith, cut-member at id h)

  pub to_text_inj : (p q : Uuid) → uuids.to_text p ≡ uuids.to_text q → p ≡ q
  to_text_inj p q e = ground (arith, ap uuids.parse e, uuids.parse-to_text p, uuids.parse-to_text q)

  key_inj : (p q : Uuid) → feed_key uuids p ≡ feed_key uuids q → p ≡ q
  unfolding feed_key
  key_inj p q e =
      to_text_inj p q
        (append_cancel_right _ _ (codes ":feed") (append_cancel_left (codes "user:") _ _ e))

  member_inj :
      (at at' : Time) (p q : Uuid)
      → IsTime at
      → IsTime at'
      → feed_member uuids at p ≡ feed_member uuids at' q
      → (p ≡ q) × (unix_milli at ≡ unix_milli at')
  member_inj at at' p q h h' e =
      let parts = sym (cut-member at p h) ∙ ap (cut b':') e ∙ cut-member at' q h' in
      (
        to_text_inj p q (ground arith),
        digits_inj _ _ _ _ (padded_fits at h) (padded_fits at' h') (ground arith),
      )

  pub text_eq-key : (p q : Uuid) → text_eq (feed_key uuids p) (feed_key uuids q) ≡ (p == q)
  text_eq-key p q = elim (Bool-cases (text_eq (feed_key uuids p) (feed_key uuids q))) [
    | inl same ↦ ground (arith, key_inj p q (text_eq→eq _ _ same))
    | inr other ↦ ground (arith, text_eq_self (feed_key uuids p))
  ]

  pub text_eq-member :
      (at at' : Time) (p q : Uuid)
      → IsTime at
      → IsTime at'
      → text_eq (feed_member uuids at p) (feed_member uuids at' q)
        ≡ (p == q && unix_milli at == unix_milli at')
  unfolding feed_member
  text_eq-member at at' p q h h' =
      elim (Bool-cases (text_eq (feed_member uuids at p) (feed_member uuids at' q))) [
        | inl same ↦ ground (arith, member_inj at at' p q h h' (text_eq→eq _ _ same))
        | inr other ↦ ground (arith, text_eq_self (feed_member uuids at p))
      ]

  -- Members are ordered by their time in milliseconds, and at one time by the text of the identifier:
  -- for times of at most 13 digits, which last until the year 2286.
  pub text_ltb-member :
      (at at' : Time) (p q : Uuid)
      → unix_milli at < 10 ^ 13
      → unix_milli at' < 10 ^ 13
      → text_ltb (feed_member uuids at p) (feed_member uuids at' q) ≡ (
          ltb (unix_milli at) (unix_milli at')
          || (unix_milli at == unix_milli at' && text_ltb (uuids.to_text p) (uuids.to_text q)))
  unfolding feed_member width
  text_ltb-member at at' p q h h' = ground (
    arith,
    text_ltb-digits 13 (unix_milli at) (unix_milli at') (b':' ∷ uuids.to_text p)
        (b':' ∷ uuids.to_text q) h h',
  )
