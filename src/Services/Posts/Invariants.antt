-- ===== src/Services/Posts/Invariants.antt =====
-- internal/services/postService.go keeps what its repository keeps.
use blog_go.Prelude.{ℕ, Option, List, [], ◌∷◌}
use blog_go.Action.Keeps.{Keeps, Keeps-bind, Keeps-pure, Keeps-fail, Keeps-if, keeps_rules}
use blog_go.Models.{Uuid, CreateAttachedMedia, CreatePostRequest, Post, PostPaginationCursor}
use blog_go.Repositories.{PostRepository}
use blog_go.Repositories.Invariants.{PostsKeep, RuntimeKeeps}
use blog_go.Services.{Runtime}
use blog_go.Services.Posts.{
  to_attached_media, to_post, get_posts_by_author_id, remove_read, remove_post_by_id, add_post,
}

module _ {W : Type 0} {P : W → Type 0} {rt : Runtime W} {posts : PostRepository W}
    (runtime : RuntimeKeeps P rt) (keep : PostsKeep P posts) where
  to_attached_media-Keeps :
      (requests : List CreateAttachedMedia) (id : Uuid) → Keeps P (to_attached_media rt requests id)
  unfolding to_attached_media
  to_attached_media-Keeps [] id = search keeps_rules
  to_attached_media-Keeps (request ∷ requests) id =
      Keeps-bind _ _ runtime.new_uuid
        λ _ _ _. Keeps-bind _ _ (to_attached_media-Keeps requests id) λ _ _ _. search keeps_rules

  to_post-Keeps :
      (request : CreatePostRequest) (author : Uuid) → Keeps P (to_post rt request author)
  unfolding to_post
  to_post-Keeps request author = Keeps-bind _ _ runtime.now λ _ _ _.
      Keeps-bind _ _ runtime.new_uuid
        λ id _ _. Keeps-bind _ _ (to_attached_media-Keeps request.attached id) λ _ _ _. Keeps-pure _

  pub add_post-Keeps :
      (request : CreatePostRequest) (author : Uuid) → Keeps P (add_post rt posts request author)
  unfolding add_post
  add_post-Keeps request author = search (keeps_rules, to_post-Keeps, keep.add_post)

  remove_read-Keeps : (user : Uuid) (post : Post) → Keeps P (remove_read rt posts user post)
  unfolding remove_read
  remove_read-Keeps user post =
      Keeps-if _ _ _ (Keeps-fail _)
        (Keeps-bind _ _ runtime.now λ _ _ _. search (keeps_rules, keep.remove_post))

  pub remove_post_by_id-Keeps : (id user : Uuid) → Keeps P (remove_post_by_id rt posts id user)
  unfolding remove_post_by_id
  remove_post_by_id-Keeps id user = search (keeps_rules, keep.get_post_by_id, remove_read-Keeps)

  pub get_posts_by_author_id-Keeps :
      (author : Uuid) (cursor : Option PostPaginationCursor) (limit : ℕ)
      → Keeps P (get_posts_by_author_id posts author cursor limit)
  unfolding get_posts_by_author_id
  get_posts_by_author_id-Keeps author cursor limit =
      search (keeps_rules, keep.get_posts_by_author_id)
