-- ===== src/Handles/Posts.antt =====
-- internal/handles/postHandle.go
use text.Mathlib.Text.{◌==◌ as str_eq}
use blog_go.Prelude.{String, List, if◌then◌else◌}
use blog_go.Errs.{Error, http_error}
use blog_go.Action.{Result, ok, err, pure, lift, ◌>>=◌, map_err}
use blog_go.Models.{Uuid, Post}
use blog_go.Repositories.{PostRepository}
use blog_go.Services.{UuidText, Runtime}
use blog_go.Services.Posts.{get_posts_by_author_id, add_post, remove_post_by_id}
use blog_go.Handles.Context.{
  Reply, Handler, Binding, reply, error_and_reply, page, one_post, nothing, get_user_id,
}
use blog_go.Handles.Errors.{process_post_service_errors}
use blog_go.Handles.Pagination.{CursorCodec, get_cursor_and_limit, encode_cursor}

abbrev err_user_id_path_is_empty : Error
err_user_id_path_is_empty = http_error (record {
  code = 400;
  error_tag = "user_id_is_empty";
  message = "user id in path cannot be empty";
})

abbrev err_bad_user_id_path : Error
err_bad_user_id_path = http_error (record {
  code = 400;
  error_tag = "user_id_is_invalid";
  message = "user id in path must be a valid UUID";
})

abbrev err_post_id_path_is_empty : Error
err_post_id_path_is_empty = http_error (record {
  code = 400;
  error_tag = "post_id_is_empty";
  message = "Post id in path cannot be empty";
})

abbrev err_bad_post_id_path : Error
err_bad_post_id_path = http_error (record {
  code = 400;
  error_tag = "post_id_is_invalid";
  message = "Post id in path must be a valid UUID";
})

-- A path parameter that must be an identifier.
path_id : UuidText → Error → Error → String → Result Uuid
path_id uuids empty bad text =
    if str_eq text ""
    then err empty
    else elim (uuids.parse text) [ err e ↦ err bad | ok id ↦ ok id ]

-- There is no `return` after the error of `encodeCursor`, whose text is then empty.
unfoldable pub answer_page : List Post → Result String → Reply
answer_page posts (ok text) = reply 200 (page (record { posts = posts; cursor = text }))
answer_page posts (err e) = error_and_reply e 200 (page (record { posts = posts; cursor = "" }))

module _ {W : Type 0} (uuids : UuidText) (posts : PostRepository W) (codec : CursorCodec) where
  unfoldable pub get_posts_by_user_id : Handler W
  unfolding path_id answer_page encode_cursor get_cursor_and_limit
  get_posts_by_user_id req = do
    user_id ←
        lift (path_id uuids err_user_id_path_is_empty err_bad_user_id_path (req.param "user_id"))
    asked ← lift (get_cursor_and_limit codec req)
    found ←
        map_err process_post_service_errors (get_posts_by_author_id posts user_id asked.0 asked.1)
    pure (answer_page found.0 (encode_cursor codec found.1))

module _ {W : Type 0} (rt : Runtime W) (posts : PostRepository W) (binding : Binding) where
  unfoldable pub send_post : Handler W
  unfolding get_user_id
  send_post req = do
    user_id ← lift (get_user_id req)
    input ← lift (binding.post_request req.body)
    post ← map_err process_post_service_errors (add_post rt posts input user_id)
    pure (reply 200 (one_post post))

module _ {W : Type 0} (uuids : UuidText) (rt : Runtime W) (posts : PostRepository W) where
  unfoldable pub delete_post_by_id : Handler W
  unfolding get_user_id path_id
  delete_post_by_id req = do
    user_id ← lift (get_user_id req)
    post_id ←
        lift (path_id uuids err_post_id_path_is_empty err_bad_post_id_path (req.param "post_id"))
    post ← map_err process_post_service_errors (remove_post_by_id rt posts post_id user_id)
    pure (reply 204 nothing)
