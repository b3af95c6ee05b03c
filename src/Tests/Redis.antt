-- ===== src/Tests/Redis.antt =====
-- Sorted sets for the tests of internal/cache/feedCacher.go: a key has a list of members, which are
-- read sorted and once each.
use blog_go.Prelude.{
  ℕ, zero, suc, ◌≡◌, refl, sym, ap, ◌∙◌, true, false, not, ◌&&◌, ◌||◌, inl, inr, Bool-cases, List,
  [], ◌∷◌, arith, if◌then◌else◌, any, filter, length, All, Text, text_eq, text_eq→eq, text_eq_self,
  text_ltb, text_ltb_total, text_ltb_trans,
}
use blog_go.Action.{ok}
use blog_go.Cache.Feed.{UuidCodes, Command, SortedSets, zadd, zrem}
use blog_go.Cache.Feed.Contents.{IsRedis, IsDescending, applied, is_in, limited}

abbrev pub letters_of : ℕ → Text
letters_of zero = []
letters_of (suc n) = b'x' ∷ letters_of n

pub length-letters : (n : ℕ) → length (letters_of n) ≡ n
length-letters zero = refl
length-letters (suc n) = ap suc (length-letters n)

abbrev pub uuid_codes : UuidCodes
uuid_codes = record {
  to_text = letters_of;
  parse = λ s. ok (length s);
  parse-to_text = λ n. ap ok (length-letters n);
}

abbrev pub insert : Text → List Text → List Text
insert x [] = x ∷ []
insert x (y ∷ ys) =
    let rest = insert x ys in
    if text_ltb y x then x ∷ y ∷ ys else if text_eq x y then y ∷ ys else y ∷ rest

abbrev pub sorted : List Text → List Text
sorted [] = []
sorted (x ∷ xs) = insert x (sorted xs)

All-below :
    (x y : Text) (ys : List Text)
    → text_ltb y x ≡ true
    → All (λ n. text_ltb n y ≡ true) ys
    → All (λ n. text_ltb n x ≡ true) ys
All-below x y [] h k = tt
All-below x y (z ∷ ys) h (k, ks) = (text_ltb_trans z y x k h, All-below x y ys h ks)

All-insert :
    (x y : Text) (ys : List Text)
    → text_ltb x y ≡ true
    → All (λ n. text_ltb n y ≡ true) ys
    → All (λ n. text_ltb n y ≡ true) (insert x ys)
All-insert x y [] h k = (h, tt)
All-insert x y (z ∷ ys) h (k, ks) = elim (Bool-cases (text_ltb z x)) [
  | inl less ↦ rw less (h, (k, ks))
  | inr more ↦ elim (Bool-cases (text_eq x z)) [
    | inl same ↦ rw (more, same) (k, ks)
    | inr other ↦ rw (more, other) (k, All-insert x y ys h ks)
  ]
]

eq_flip : (x z : Text) → text_eq x z ≡ false → text_eq z x ≡ false
eq_flip x z h = elim (Bool-cases (text_eq z x)) [
  | inl same ↦ ground (arith, text_eq→eq z x same, text_eq_self x)
  | inr other ↦ other
]

insert-IsDescending : (x : Text) (ys : List Text) → IsDescending ys → IsDescending (insert x ys)
insert-IsDescending x [] h = (tt, tt)
insert-IsDescending x (z ∷ ys) (h, hs) = elim (Bool-cases (text_ltb z x)) [
  | inl less ↦ rw less ((less, All-below x z ys less h), (h, hs))
  | inr more ↦ elim (Bool-cases (text_eq x z)) [
    | inl same ↦ rw (more, same) (h, hs)
    | inr other ↦
        rw (more, other)
          (
            All-insert x z ys (text_ltb_total z x more (eq_flip x z other)) h,
            insert-IsDescending x ys hs,
          )
  ]
]

pub sorted-IsDescending : (xs : List Text) → IsDescending (sorted xs)
sorted-IsDescending [] = tt
sorted-IsDescending (x ∷ xs) = insert-IsDescending x (sorted xs) (sorted-IsDescending xs)

any-insert :
    (m x : Text) (ys : List Text)
    → any (text_eq m) (insert x ys) ≡ (text_eq m x || any (text_eq m) ys)
any-insert m x [] = refl
any-insert m x (z ∷ ys) = elim (Bool-cases (text_eq x z)) [
  | inl same ↦ ground (arith, text_eq→eq x z same, any-insert m x ys)
  | inr other ↦ ground (arith, any-insert m x ys)
]

pub any-sorted : (m : Text) (xs : List Text) → any (text_eq m) (sorted xs) ≡ any (text_eq m) xs
any-sorted m [] = refl
any-sorted m (x ∷ xs) = ground (arith, any-insert m x (sorted xs), any-sorted m xs)

abbrev pub World : Type 0
World = Text → List Text

abbrev pub command : Command → World → World
command (zadd key m) w = λ k. if text_eq key k then m ∷ w k else w k
command (zrem key m) w = λ k. if text_eq key k then filter (λ n. not (text_eq m n)) (w k) else w k

abbrev pub pipeline : List Command → World → World
pipeline [] w = w
pipeline (c ∷ cs) w = pipeline cs (command c w)

abbrev pub sets : SortedSets World
sets = record {
  exec = λ cs w. (ok tt, pipeline cs w);
  zrange_args =
      λ key start count w. (ok (limited count (filter (is_in start) (sorted (w key)))), w);
}

eq_swap : (a b : Text) → text_eq a b ≡ text_eq b a
eq_swap a b = elim (Bool-cases (text_eq a b)) [
  | inl same ↦ ground (arith, text_eq→eq a b same, text_eq_self b)
  | inr other ↦ other ∙ sym (eq_flip a b other)
]

any-removed :
    (m x : Text) (xs : List Text)
    → any (text_eq m) (filter (λ n. not (text_eq x n)) xs)
      ≡ (any (text_eq m) xs && not (text_eq x m))
any-removed m x [] = refl
any-removed m x (z ∷ xs) = elim (Bool-cases (text_eq m z)) [
  | inl same ↦ ground (arith, text_eq→eq m z same, any-removed m x xs)
  | inr other ↦ ground (arith, any-removed m x xs)
]

pub pipeline-applied :
    (cs : List Command) (w : World) (key m : Text)
    → any (text_eq m) (pipeline cs w key) ≡ applied cs key m (any (text_eq m) (w key))
pipeline-applied [] w key m = refl
pipeline-applied (zadd k x ∷ cs) w key m =
    pipeline-applied cs (command (zadd k x) w) key m
    ∙ ap (applied cs key m) (ground (arith, eq_swap m x))
pipeline-applied (zrem k x ∷ cs) w key m =
    pipeline-applied cs (command (zrem k x) w) key m
    ∙ ap (applied cs key m) (ground (arith, any-removed m x (w key)))

unfoldable pub redis : IsRedis sets
redis = record {
  members = λ w key. sorted (w key);
  descending = λ w key. sorted-IsDescending (w key);
  exec_ok = λ cs w w' h key m.
      any-sorted m (w' key)
      ∙ ap (λ (v : World). any (text_eq m) (v key)) (sym (ap (λ r. r.1) h))
      ∙ pipeline-applied cs w key m
      ∙ ap (applied cs key m) (sym (any-sorted m (w key)));
  zrange_ok = λ key start count w w' ms h. ground arith;
}
