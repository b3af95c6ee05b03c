-- ===== src/Services/Posts.antt =====
-- internal/services/postService.go
pub mod Ownership
pub mod Invariants
use blog_go.Prelude.{ℕ, String, not, Option, none, some, List, [], ◌∷◌, ◌==◌, if◌then◌else◌}
use blog_go.Errs.{
  Error, sentinel, wrap, is, err_not_found, error_post_was_deleted, error_post_does_not_exist,
  error_unauthorized,
}
use blog_go.Action.{Action, pure, fail, ◌>>=◌, ◌>>◌, map_err}
use blog_go.Models.{
  Uuid, AttachedMedia, CreateAttachedMedia, CreatePostRequest, Post, PostPaginationCursor,
}
use blog_go.Repositories.{PostRepository}
use blog_go.Services.{Runtime}

get_error : String → Error → Error
get_error message e =
    if is e err_not_found then sentinel error_post_does_not_exist else wrap message e

module _ {W : Type 0} (rt : Runtime W) where
  unfoldable pub to_attached_media : List CreateAttachedMedia → Uuid → Action W (List AttachedMedia)
  to_attached_media [] post_id = pure []
  to_attached_media (request ∷ requests) post_id =
      let rest = to_attached_media requests post_id in
      rt.new_uuid >>= λ id. rest >>= λ media. pure (
        record {
          id = id;
          post_id = post_id;
          media_type = request.media_type;
          mime_type = request.mime_type;
          url = request.url;
          display_order = request.display_order;
        }
        ∷ media)

  unfoldable pub to_post : CreatePostRequest → Uuid → Action W Post
  unfolding to_attached_media
  to_post request author_id = do
    creation_time ← rt.now
    post_id ← rt.new_uuid
    attached ← to_attached_media request.attached post_id
    pure (record {
      id = post_id;
      author_id = author_id;
      reply_to = request.reply_to;
      content = request.content;
      created_at = creation_time;
      deleted_at = none;
      attached = attached;
    })

module _ {W : Type 0} (posts : PostRepository W) where
  -- A post that is there may be a deleted one.
  unless_deleted : Option ℕ → Post → Action W Post
  unless_deleted none post = pure post
  unless_deleted (some _) post = fail (sentinel error_post_was_deleted)

  unfoldable pub get_post_by_id : Uuid → Action W Post
  unfolding get_error unless_deleted
  get_post_by_id id = do
    post ← map_err (get_error "could not get post by id") (posts.get_post_by_id id)
    unless_deleted post.deleted_at post

  unfoldable pub get_posts_by_author_id :
      Uuid → Option PostPaginationCursor → ℕ → Action W (List Post × Option PostPaginationCursor)
  get_posts_by_author_id author_id cursor limit =
      map_err (wrap "could not gather posts by author id")
        (posts.get_posts_by_author_id author_id cursor limit)

module _ {W : Type 0} (rt : Runtime W) (posts : PostRepository W) where
  -- The rest of `RemovePostById`, after the post was read.
  remove_read : Uuid → Post → Action W Post
  remove_read user_id post =
      if not (post.author_id == user_id) then fail (sentinel error_unauthorized) else do
        deleted_at ← rt.now
        let removed : Post = record post { deleted_at = some deleted_at }
        map_err (wrap "failed to remove post by id") (posts.remove_post removed deleted_at)
        pure removed

  unfoldable pub remove_post_by_id : Uuid → Uuid → Action W Post
  unfolding get_error remove_read
  remove_post_by_id post_id user_id =
      map_err (get_error "failed to get post by id") (posts.get_post_by_id post_id)
      >>= remove_read user_id

  unfoldable pub add_post : CreatePostRequest → Uuid → Action W Post
  unfolding to_post
  add_post request author_id = do
    post ← to_post rt request author_id
    map_err (wrap "could not add post") (posts.add_post post)
    pure post
