-- ===== src/Tests/Documents.antt =====
-- `AddPost` and `GetPostsWithIds` over a Redis that keeps one post or none at each key.
use text.Mathlib.Text.{◌==◌ as str_eq}
use text.Mathlib.TextEquality.{eq_iff}
use blog_go.Prelude.{
  ℕ, ◌≡◌, refl, sym, ap, ◌∙◌, true, false, Bool, ◌&&◌, inl, inr, Bool-cases, Option, none, some,
  List, [], ◌∷◌, map, arith, ◌==◌, if◌then◌else◌, Text, text_eq,
}
use blog_go.Action.{Result, ok, err, ◌>>=◌, map_err}
use blog_go.Errs.{other}
use blog_go.Models.{Post, AttachedMedia}
use blog_go.Cache.Posts.{
  Value, text_value, Json, JsonCommand, json_set, expire, add_post, get_posts_with_ids, post_key,
  set_commands, collect, classify, first_post, put,
}
use blog_go.Cache.Posts.Documents.{IsJson, add_post-get_posts_with_ids, with_post, split}
use blog_go.Tests.Redis.{uuid_codes}

abbrev hello : Post
hello = record {
  id = 7;
  author_id = 1;
  reply_to = none;
  content = "hello";
  created_at = 5;
  deleted_at = none;
  attached = [];
}

abbrev is_none : Option ℕ → Bool
is_none none = true
is_none (some n) = false

is_none-eq : (o : Option ℕ) → is_none o ≡ true → o ≡ none
is_none-eq none h = refl
is_none-eq (some n) h = ground arith

abbrev is_empty : List AttachedMedia → Bool
is_empty [] = true
is_empty (x ∷ xs) = false

is_empty-eq : (xs : List AttachedMedia) → is_empty xs ≡ true → xs ≡ []
is_empty-eq [] h = refl
is_empty-eq (x ∷ xs) h = ground arith

abbrev is_hello : Post → Bool
is_hello p =
    (p.id == 7 && p.author_id == 1 && p.created_at == 5)
    && (is_none p.reply_to
        && is_none p.deleted_at
        && is_empty p.attached
        && str_eq p.content "hello")

is_hello-eq : (p : Post) → is_hello p ≡ true → p ≡ hello
is_hello-eq p h =
    let id : p.id ≡ 7 = ground arith in
    let author : p.author_id ≡ 1 = ground arith in
    let created : p.created_at ≡ 5 = ground arith in
    let reply : p.reply_to ≡ none = ground (arith, is_none-eq p.reply_to) in
    let deleted : p.deleted_at ≡ none = ground (arith, is_none-eq p.deleted_at) in
    let attached : p.attached ≡ [] = ground (arith, is_empty-eq p.attached) in
    let content : p.content ≡ "hello" = (eq_iff p.content "hello").0 (ground arith) in
    λ i. record {
      id = id i;
      author_id = author i;
      reply_to = reply i;
      content = content i;
      created_at = created i;
      deleted_at = deleted i;
      attached = attached i;
    }

abbrev Store : Type 0
Store = Text → Bool

abbrev stored : Bool → Option Post
stored true = some hello
stored false = none

abbrev sent : Option Post → Option Value
sent none = none
sent (some p) = some (text_value "[hello]")

-- JSON.SET of another post fails.
abbrev run : List JsonCommand → Store → Result (Unit {0}) × Store
run (json_set key p ∷ expire _ _ ∷ []) w =
    if is_hello p
    then (ok tt, λ k. if text_eq key k then true else w k)
    else (err (other "post"), w)
run _ w = (err (other "commands"), w)

abbrev json : Json Store
json = record {
  exists = λ k w. (ok 0, w);
  get_deleted_at = λ k w. (ok "[]", w);
  set_deleted_at = λ k at w. (ok tt, w);
  mget = λ keys w. (ok (map (λ k. sent (stored (w k))) keys), w);
  exec = run;
  unmarshal = λ text. ok (hello ∷ []);
}

stored-eq : (b : Bool) (p : Post) → stored b ≡ some p → hello ≡ p
stored-eq true p h = ground arith
stored-eq false p h = ground arith

stored-if : (c b : Bool) → stored (if c then true else b) ≡ (if c then some hello else stored b)
stored-if true b = refl
stored-if false b = refl

run-stored :
    (key : Text) (p : Post) (ttl : ℕ) (w w' : Store)
    → run (json_set key p ∷ expire key ttl ∷ []) w ≡ (ok tt, w')
    → (k : Text) → stored (w' k) ≡ (if text_eq key k then some p else stored (w k))
run-stored key p ttl w w' h k = elim (Bool-cases (is_hello p)) [
  | inl same ↦
      let one = is_hello-eq p same in
      let set : (λ k. if text_eq key k then true else w k) ≡ w' = ground arith in
      ap (λ s. stored (s k)) (sym set)
      ∙ stored-if (text_eq key k) (w k)
      ∙ ap (λ q. if text_eq key k then some q else stored (w k)) (sym one)
  | inr different ↦ ground arith
]

json-IsJson : IsJson json
json-IsJson = record {
  document = λ w k. stored (w k);
  reply = sent;
  mget_ok = λ keys w w' results h. ground (arith, h);
  reply_none = refl;
  reply_some = λ w key p h. ("[hello]", refl, ap (λ q. ok (q ∷ [])) (stored-eq (w key) p h));
  exec_ok = run-stored;
}

-- Post 7 was missing and 8 stays missing.
add_post-get_posts_with_ids_example :
    (hello ∷ [], 8 ∷ [])
    ≡ split (with_post uuid_codes json-IsJson 60 hello (λ k. false)) (7 ∷ 8 ∷ [])
unfolding add_post set_commands post_key get_posts_with_ids collect classify first_post put ◌>>=◌
    map_err
add_post-get_posts_with_ids_example =
    add_post-get_posts_with_ids uuid_codes json-IsJson 60 hello (7 ∷ 8 ∷ []) (λ k. false) _ _
      (hello ∷ []) (8 ∷ []) refl refl
