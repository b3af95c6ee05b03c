-- ===== src/Repositories/Tokens/Elsewhere.antt =====
-- The statements of internal/database that do not concern refresh tokens leave
-- the allow list as it is.
use blog_go.Prelude.{◌≡◌, false, List, ℕ, String, arith}
use blog_go.Models.{Uuid, Post}
use blog_go.Database.{User, PostRow, PostMedium, OutboxMessageType, Timestamptz, Tables}
use blog_go.Database.Users
use blog_go.Database.Posts
use blog_go.Database.Outbox.{add_to_outbox}
use blog_go.Repositories.Tokens.Revocation.{is_allowed}
use blog_go.Repositories.Transaction.Invariants.{Preserves}

module _ (jti : Uuid) where
  abbrev pub Lacks : Tables → Type 0
  Lacks t = is_allowed jti t ≡ false

  pub add_user-Lacks : (u : User) → Preserves Lacks (Users.add_user u)
  unfolding Users.add_user
  add_user-Lacks u = record { at = λ stamp t h. ground arith }

  pub find_user_by_login_or_email-Lacks :
      (login email : String) → Preserves Lacks (Users.find_user_by_login_or_email login email)
  unfolding Users.find_user_by_login_or_email
  find_user_by_login_or_email-Lacks login email = record { at = λ stamp t h. h }

  pub get_subscribers-Lacks : (id : Uuid) → Preserves Lacks (Users.get_subscribers id)
  unfolding Users.get_subscribers
  get_subscribers-Lacks id = record { at = λ stamp t h. h }

  pub subscribe_user_to-Lacks : (a b : Uuid) → Preserves Lacks (Users.subscribe_user_to a b)
  unfolding Users.subscribe_user_to
  subscribe_user_to-Lacks a b = record { at = λ stamp t h. ground arith }

  pub unsubscribe_user_from-Lacks : (a b : Uuid) → Preserves Lacks (Users.unsubscribe_user_from a b)
  unfolding Users.unsubscribe_user_from
  unsubscribe_user_from-Lacks a b = record { at = λ stamp t h. h }

  pub add_post-Lacks : (p : PostRow) → Preserves Lacks (Posts.add_post p)
  unfolding Posts.add_post
  add_post-Lacks p = record { at = λ stamp t h. ground arith }

  pub add_post_media-Lacks : (m : PostMedium) → Preserves Lacks (Posts.add_post_media m)
  unfolding Posts.add_post_media
  add_post_media-Lacks m = record { at = λ stamp t h. ground arith }

  pub delete_post-Lacks : (id : Uuid) (at : Timestamptz) → Preserves Lacks (Posts.delete_post id at)
  unfolding Posts.delete_post
  delete_post-Lacks id at = record { at = λ stamp t h. h }

  pub find_linked_post_media-Lacks : (id : Uuid) → Preserves Lacks (Posts.find_linked_post_media id)
  unfolding Posts.find_linked_post_media
  find_linked_post_media-Lacks id = record { at = λ stamp t h. h }

  pub find_post_by_id-Lacks : (id : Uuid) → Preserves Lacks (Posts.find_post_by_id id)
  unfolding Posts.find_post_by_id
  find_post_by_id-Lacks id = record { at = λ stamp t h. h }

  pub find_posts_by_ids-Lacks : (ids : List Uuid) → Preserves Lacks (Posts.find_posts_by_ids ids)
  unfolding Posts.find_posts_by_ids
  find_posts_by_ids-Lacks ids = record { at = λ stamp t h. h }

  pub find_posts_medias-Lacks : (ids : List Uuid) → Preserves Lacks (Posts.find_posts_medias ids)
  unfolding Posts.find_posts_medias
  find_posts_medias-Lacks ids = record { at = λ stamp t h. h }

  pub find_user_posts-Lacks :
      (id : Uuid) (limit : ℕ) → Preserves Lacks (Posts.find_user_posts id limit)
  unfolding Posts.find_user_posts
  find_user_posts-Lacks id limit = record { at = λ stamp t h. ground arith }

  pub find_user_posts_with_cursor-Lacks :
      (id : Uuid) (limit : ℕ) (at : Timestamptz) (last_id : Uuid)
      → Preserves Lacks (Posts.find_user_posts_with_cursor id limit at last_id)
  unfolding Posts.find_user_posts_with_cursor
  find_user_posts_with_cursor-Lacks id limit at last_id = record { at = λ stamp t h. ground arith }

  pub add_to_outbox-Lacks :
      (type : OutboxMessageType) (payload : Post) → Preserves Lacks (add_to_outbox type payload)
  unfolding add_to_outbox
  add_to_outbox-Lacks type payload = record { at = λ stamp t h. ground arith }

pub ruleset lacks_rules = (
  add_user-Lacks, find_user_by_login_or_email-Lacks, get_subscribers-Lacks, subscribe_user_to-Lacks,
  unsubscribe_user_from-Lacks, add_post-Lacks, add_post_media-Lacks, delete_post-Lacks,
  find_linked_post_media-Lacks, find_post_by_id-Lacks, find_posts_by_ids-Lacks,
  find_posts_medias-Lacks, find_user_posts-Lacks, find_user_posts_with_cursor-Lacks,
  add_to_outbox-Lacks,
)
