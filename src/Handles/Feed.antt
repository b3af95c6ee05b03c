-- ===== src/Handles/Feed.antt =====
-- internal/handles/feedHandle.go
use blog_go.Action.{pure, lift, ◌>>=◌}
use blog_go.Cache.{FeedCacher}
use blog_go.Repositories.{PostRepository}
use blog_go.Services.Feed.{get_from_feed}
use blog_go.Handles.Context.{Handler, reply, page, get_user_id}
use blog_go.Handles.Pagination.{CursorCodec, get_cursor_and_limit, encode_cursor}

module _ {W : Type 0} (feeds : FeedCacher W) (posts : PostRepository W) (codec : CursorCodec) where
  unfoldable pub get_posts : Handler W
  unfolding get_cursor_and_limit get_user_id encode_cursor
  get_posts req = do
    asked ← lift (get_cursor_and_limit codec req)
    user_id ← lift (get_user_id req)
    found ← get_from_feed feeds posts user_id asked.0 asked.1
    text ← lift (encode_cursor codec found.1)
    pure (reply 200 (page (record { posts = found.0; cursor = text })))
