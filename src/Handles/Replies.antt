-- ===== src/Handles/Replies.antt =====
-- What the handlers of internal/handles reply when they record no error.
use blog_go.Prelude.{ℕ, ◌≡◌, ◌⊎◌, inl, inr, refl, String, Option, none, some, List, arith}
use blog_go.Errs.{Error, wrap}
use blog_go.Action.{ok, err, Action, pure, ◌>>=◌}
use blog_go.Action.Laws.{Result-cases, Ensures, Ensures-bind, Ensures-pure}
use blog_go.Models.{Uuid, Post, PostPaginationCursor}
use blog_go.Cache.{FeedCacher}
use blog_go.Repositories.{UserRepository, TokenRepository, PostRepository}
use blog_go.Services.{UuidText, Runtime}
use blog_go.Handles.Context.{
  Request, Payload, Reply, Binding, reply, error_and_reply, page, uuid_value,
}
use blog_go.Handles.Pagination.{CursorCodec, encode_cursor}
use blog_go.Handles.Auth.{register, login, refresh, logout}
use blog_go.Handles.Posts.{answer_page, get_posts_by_user_id, send_post, delete_post_by_id}
use blog_go.Handles.Feed.{get_posts}
use blog_go.Handles.Users.{call_service, with_author, subscribe_to_author, unsubscribe_from_author}

-- One reply with the status.
abbrev pub IsReply : ℕ → Reply → Type 0
IsReply status r = (p : Payload) × (r ≡ reply status p)

-- A page whose cursor `json.Marshal` refuses: the error is recorded, and the page is written all the same.
abbrev pub IsCutOff : CursorCodec → Reply → Type 0
IsCutOff codec r =
    (c : PostPaginationCursor) × (e : Error) × (posts : List Post) × (codec.marshal c ≡ err e)
    × (r
        ≡ error_and_reply (wrap "could not marshal cursor" e) 200
            (page (record { posts = posts; cursor = "" })))

-- What a run that succeeds replies with; a handler that panics is none of them.
pub record Replies {W : Type 0} (Q : Reply → Type 0) (m : Action W Reply) : Type 0 where
  pub at : (w : W) → Ensures (λ r v. Q r) (m w)

module _ {W A : Type 0} {Q : Reply → Type 0} where
  Replies-bind :
      (m : Action W A) (f : A → Action W Reply) → ((a : A) → Replies Q (f a)) → Replies Q (m >>= f)
  Replies-bind m f h = record { at = λ w. Ensures-bind m f w (λ a u _. (h a).at u) }

module _ {W : Type 0} where
  Replies-pure :
      {status : ℕ} (p : Payload) → Replies {W = W} (IsReply status) (pure (reply status p))
  Replies-pure p = record { at = λ w. Ensures-pure _ w (p, refl) }

ruleset replies_rules = (Replies-bind, Replies-pure)

module _ {W : Type 0} (uuids : UuidText) (rt : Runtime W) (users : UserRepository W)
    (tokens : TokenRepository W) (posts : PostRepository W) (feeds : FeedCacher W)
    (binding : Binding) (codec : CursorCodec) (req : Request) where
  pub register-Replies : Replies (IsReply 201) (register uuids rt users tokens binding req)
  unfolding register
  register-Replies = search replies_rules

  pub login-Replies : Replies (IsReply 200) (login uuids rt users tokens binding req)
  unfolding login
  login-Replies = search replies_rules

  pub refresh-Replies : Replies (IsReply 200) (refresh uuids rt tokens req)
  unfolding refresh
  refresh-Replies = search replies_rules

  pub logout-Replies : Replies (IsReply 204) (logout uuids rt tokens req)
  unfolding logout
  logout-Replies = search replies_rules

  pub send_post-Replies : Replies (IsReply 200) (send_post rt posts binding req)
  unfolding send_post
  send_post-Replies = search replies_rules

  pub delete_post_by_id-Replies : Replies (IsReply 204) (delete_post_by_id uuids rt posts req)
  unfolding delete_post_by_id
  delete_post_by_id-Replies = search replies_rules

  pub get_posts-Replies : Replies (IsReply 200) (get_posts feeds posts codec req)
  unfolding get_posts
  get_posts-Replies = search replies_rules

  encode_cursor-cases :
      (c : Option PostPaginationCursor)
      → ((text : String) × (encode_cursor codec c ≡ ok text))
        ⊎ ((p : PostPaginationCursor) × (e : Error) × (codec.marshal p ≡ err e)
            × (encode_cursor codec c ≡ err (wrap "could not marshal cursor" e)))
  unfolding encode_cursor
  encode_cursor-cases none = inl ("", refl)
  encode_cursor-cases (some p) = elim (Result-cases (codec.marshal p)) [
    | inl (bytes, made) ↦ inl (codec.encode_to_string bytes, ground arith)
    | inr (e, failed) ↦ inr (p, e, failed, ground arith)
  ]

  answer_page-Replies :
      (found : List Post) (c : Option PostPaginationCursor)
      → Replies {W = W}
          (λ r. IsReply 200 r ⊎ IsCutOff codec r)
          (pure (answer_page found (encode_cursor codec c)))
  unfolding answer_page
  answer_page-Replies found c = elim (encode_cursor-cases c) [
    | inl (text, made) ↦ rw made (record { at = λ w. Ensures-pure _ w (inl (_, refl)) })
    | inr (p, e, failed, cut_off) ↦
        rw cut_off (record { at = λ w. Ensures-pure _ w (inr (p, e, found, failed, refl)) })
  ]

  pub get_posts_by_user_id-Replies :
      Replies (λ r. IsReply 200 r ⊎ IsCutOff codec r) (get_posts_by_user_id uuids posts codec req)
  unfolding get_posts_by_user_id
  get_posts_by_user_id-Replies = search (replies_rules, answer_page-Replies)

  -- With the value that the middleware sets, the type assertion holds.
  with_author-Replies :
      (service : Uuid → Uuid → Action W (Unit {0})) (user_id : Uuid)
      → req.user_id ≡ some (uuid_value user_id)
      → Replies (IsReply 200) (with_author uuids service req)
  unfolding with_author call_service
  with_author-Replies service user_id is_set = rw is_set (search replies_rules)

  pub subscribe_to_author-Replies :
      (user_id : Uuid)
      → req.user_id ≡ some (uuid_value user_id)
      → Replies (IsReply 200) (subscribe_to_author uuids users req)
  unfolding subscribe_to_author
  subscribe_to_author-Replies = with_author-Replies _

  pub unsubscribe_from_author-Replies :
      (user_id : Uuid)
      → req.user_id ≡ some (uuid_value user_id)
      → Replies (IsReply 200) (unsubscribe_from_author uuids users req)
  unfolding unsubscribe_from_author
  unsubscribe_from_author-Replies = with_author-Replies _
