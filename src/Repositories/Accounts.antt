-- ===== src/Repositories/Accounts.antt =====
-- The tables of users, subscriptions and refresh tokens under
-- internal/repositories/userRepository.go and tokenRepository.go.
pub mod Writes
use text.Mathlib.Text.{◌==◌ as str_eq}
use blog_go.Prelude.{
  ℕ, String, ◌≡◌, ◌≢◌, refl, sym, ap, subst, ◌∙◌, Bool, true, false, not, ◌&&◌, ◌||◌, ◌⊎◌, inl, inr,
  List, [], ◌∷◌, ◌++◌, arith, ◌==◌, if◌then◌else◌, any, filter, All, IsDistinct, append-IsDistinct,
  filter-IsDistinct, All-append, All-filter, All-map, any-append,
}
use blog_go.Errs.{Error}
use blog_go.Action.{Action, Result, ok, err, branch, pure, fail, ◌>>=◌, map_err}
use blog_go.Action.Keeps.{
  Keeps, Keeps-map_err, Keeps-branch, Keeps-bind, Keeps-if, Keeps-fail, Keeps-pure,
}
use blog_go.Models.{Uuid, Time}
use blog_go.Database.{
  Db, Tables, Stamp, Query, User, SubscriberAuthor, AllowedRefreshToken, to_micros, pool_exec,
}
use blog_go.Database.Statements.{pool_exec-tables}
use blog_go.Database.Users
use blog_go.Database.Users.{stored_user, is_pair, has_user}
use blog_go.Database.Tokens
use blog_go.Repositories.Transaction.Invariants.{Preserves}
use blog_go.Repositories.Users.{add_user, subscribe_user_to, unsubscribe_user_from}
use blog_go.Repositories.Tokens.{add_token, try_to_delete_token, delete_all_user_tokens}

abbrev pub same_user : User → User → Bool
same_user v u = v.id == u.id || str_eq v.login u.login || str_eq v.email u.email

abbrev pub same_pair : SubscriberAuthor → SubscriberAuthor → Bool
same_pair r q = is_pair q.sub_id q.auth_id r

abbrev pub same_token : AllowedRefreshToken → AllowedRefreshToken → Bool
same_token s r = s.jti == r.jti

-- No two users share an identifier, a login or an e-mail; a pair stands once and joins two different
-- users that are stored; a token stands once and belongs to a stored user.
pub record IsSound (t : Tables) : Type 0 where
  pub users : IsDistinct same_user t.users
  pub pairs : IsDistinct same_pair t.subscriber_author
  pub ends : All (λ r. (has_user r.sub_id t && has_user r.auth_id t) ≡ true) t.subscriber_author
  pub others : All (λ r. (r.sub_id == r.auth_id) ≡ false) t.subscriber_author
  pub tokens : IsDistinct same_token t.allowed_refresh_tokens
  pub owners : All (λ s. has_user s.user_id t ≡ true) t.allowed_refresh_tokens

-- The statement keeps the tables sound.
abbrev pub KeepsSound : {A : Type 0} → Query A → Type 0
KeepsSound q = Preserves IsSound q

if_IsSound :
    {A : Type 0} (b : Bool) (x y : Result A × Tables)
    → (b ≡ true → IsSound x.1)
    → (b ≡ false → IsSound y.1)
    → IsSound (if b then x else y).1
if_IsSound true x y h k = h refl
if_IsSound false x y h k = k refl

with_user-IsSound :
    (u : User) (t : Tables)
    → any (λ v. same_user v u) t.users ≡ false
    → IsSound t
    → IsSound (record t { users = t.users ++ u ∷ [] })
with_user-IsSound u t new s = record {
  users = append-IsDistinct same_user t.users u new s.users;
  pairs = s.pairs;
  ends =
      All-map _ _ t.subscriber_author
        (λ r h. ground (
          arith,
          any-append (λ v. v.id == r.sub_id) t.users (u ∷ []),
          any-append (λ v. v.id == r.auth_id) t.users (u ∷ []),
        ))
        s.ends;
  others = s.others;
  tokens = s.tokens;
  owners =
      All-map _ _ t.allowed_refresh_tokens
        (λ r h. ground (arith, any-append (λ v. v.id == r.user_id) t.users (u ∷ []))) s.owners;
}

add_user-cases :
    (u : User) (stamp : Stamp) (t : Tables)
    → ((Users.add_user u stamp t).1 ≡ t)
      ⊎ ((any (λ v. same_user v (stored_user u)) t.users ≡ false)
          × ((Users.add_user u stamp t).1 ≡ record t { users = t.users ++ stored_user u ∷ [] }))
unfolding Users.add_user
add_user-cases u stamp t = ground arith

pub add_user-KeepsSound : (u : User) → KeepsSound (Users.add_user u)
add_user-KeepsSound u = record {
  at = λ stamp t s. elim (add_user-cases u stamp t) [
    | inl kept ↦ subst IsSound (sym kept) s
    | inr (new, ran) ↦ subst IsSound (sym ran) (with_user-IsSound (stored_user u) t new s)
  ];
}

pub subscribe-KeepsSound : (a b : Uuid) → KeepsSound (Users.subscribe_user_to a b)
unfolding Users.subscribe_user_to
subscribe-KeepsSound a b = record {
  at = λ stamp t s.
      if_IsSound _ _ _ (λ _. s)
        λ other.
          if_IsSound _ _ _ (λ _. s)
            λ new.
              if_IsSound _ _ _
                (λ stored.
                  let pair : SubscriberAuthor = record { sub_id = a; auth_id = b } in
                  record {
                    users = s.users;
                    pairs = append-IsDistinct same_pair t.subscriber_author pair new s.pairs;
                    ends = All-append _ t.subscriber_author (pair ∷ []) s.ends (stored, tt);
                    others = All-append _ t.subscriber_author (pair ∷ []) s.others (other, tt);
                    tokens = s.tokens;
                    owners = s.owners;
                  })
                (λ _. s);
}

pub unsubscribe-KeepsSound : (a b : Uuid) → KeepsSound (Users.unsubscribe_user_from a b)
unfolding Users.unsubscribe_user_from
unsubscribe-KeepsSound a b = record {
  at = λ stamp t s. record {
    users = s.users;
    pairs = filter-IsDistinct same_pair _ t.subscriber_author s.pairs;
    ends = All-filter _ _ t.subscriber_author s.ends;
    others = All-filter _ _ t.subscriber_author s.others;
    tokens = s.tokens;
    owners = s.owners;
  };
}

pub add_token-KeepsSound : (r : AllowedRefreshToken) → KeepsSound (Tokens.add_refresh_token r)
unfolding Tokens.add_refresh_token
add_token-KeepsSound r = record {
  at = λ stamp t s.
      if_IsSound _ _ _ (λ _. s)
        λ new.
          if_IsSound _ _ _
            (λ stored.
              let kept : AllowedRefreshToken = record r { expires_at = to_micros r.expires_at } in
              record {
                users = s.users;
                pairs = s.pairs;
                ends = s.ends;
                others = s.others;
                tokens = append-IsDistinct same_token t.allowed_refresh_tokens kept new s.tokens;
                owners = All-append _ t.allowed_refresh_tokens (kept ∷ []) s.owners (stored, tt);
              })
            (λ _. s);
}

filter_tokens-IsSound :
    (p : AllowedRefreshToken → Bool) (t : Tables)
    → IsSound t
    → IsSound (record t { allowed_refresh_tokens = filter p t.allowed_refresh_tokens })
filter_tokens-IsSound p t s = record {
  users = s.users;
  pairs = s.pairs;
  ends = s.ends;
  others = s.others;
  tokens = filter-IsDistinct same_token p t.allowed_refresh_tokens s.tokens;
  owners = All-filter _ p t.allowed_refresh_tokens s.owners;
}

pub delete_token-KeepsSound : (jti : Uuid) → KeepsSound (Tokens.delete_refresh_token jti)
unfolding Tokens.delete_refresh_token
delete_token-KeepsSound jti = record { at = λ stamp t s. filter_tokens-IsSound _ t s }

pub delete_tokens-KeepsSound :
    (u : Uuid) → KeepsSound (Tokens.delete_all_refresh_tokens_by_user_id u)
unfolding Tokens.delete_all_refresh_tokens_by_user_id
delete_tokens-KeepsSound u = record { at = λ stamp t s. filter_tokens-IsSound _ t s }
