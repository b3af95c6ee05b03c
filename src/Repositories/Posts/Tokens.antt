-- ===== src/Repositories/Posts/Tokens.antt =====
-- The methods of internal/repositories/postRepository.go put no refresh token on the allow list.
use blog_go.Prelude.{ℕ, Option, none, some, List, [], ◌∷◌}
use blog_go.Action.Keeps.{Keeps, Keeps-bind, keeps_rules}
use blog_go.Models.{Uuid, Time, Post, PostPaginationCursor}
use blog_go.Database.{PostRow, PostMedium}
use blog_go.Repositories.Transaction.Invariants.{
  On, In, pool_exec-On, tx_exec-In, tx_pool_exec-In, exec_transaction-On,
}
use blog_go.Repositories.Tokens.Elsewhere.{Lacks, lacks_rules}
use blog_go.Repositories.Posts.{
  remove_post_in, remove_post, add_media_in, add_post_in, add_post, get_post_by_id,
  with_attachments, find_page, fill_page, fill_posts, get_posts_by_author_id, get_posts_with_ids,
}

module _ (jti : Uuid) where
  add_media_in-In : (ms : List PostMedium) → Keeps (In (Lacks jti)) (add_media_in ms)
  unfolding add_media_in
  add_media_in-In [] = search keeps_rules
  add_media_in-In (m ∷ ms) =
      Keeps-bind _ _ (search (lacks_rules, tx_exec-In)) (λ _ _ _. add_media_in-In ms)

  add_post_in-In : (post : Post) → Keeps (In (Lacks jti)) (add_post_in post)
  unfolding add_post_in
  add_post_in-In post = search (keeps_rules, lacks_rules, tx_exec-In, add_media_in-In)

  pub add_post-IsOff : (post : Post) → Keeps (On (Lacks jti)) (add_post post)
  unfolding add_post
  add_post-IsOff post = search (keeps_rules, exec_transaction-On, add_post_in-In)

  remove_post_in-In : (post : Post) (at : Time) → Keeps (In (Lacks jti)) (remove_post_in post at)
  unfolding remove_post_in
  remove_post_in-In post at = search (keeps_rules, lacks_rules, tx_exec-In, tx_pool_exec-In)

  pub remove_post-IsOff : (post : Post) (at : Time) → Keeps (On (Lacks jti)) (remove_post post at)
  unfolding remove_post
  remove_post-IsOff post at = search (keeps_rules, exec_transaction-On, remove_post_in-In)

  pub get_post_by_id-IsOff : (id : Uuid) → Keeps (On (Lacks jti)) (get_post_by_id id)
  unfolding get_post_by_id
  get_post_by_id-IsOff id = search (keeps_rules, lacks_rules, pool_exec-On)

  with_attachments-IsOff : (rows : List PostRow) → Keeps (On (Lacks jti)) (with_attachments rows)
  unfolding with_attachments
  with_attachments-IsOff rows = search (keeps_rules, lacks_rules, pool_exec-On)

  fill_posts-IsOff : (rows : List PostRow) → Keeps (On (Lacks jti)) (fill_posts rows)
  unfolding fill_posts
  fill_posts-IsOff [] = search keeps_rules
  fill_posts-IsOff (row ∷ rows) = search with_attachments-IsOff

  pub get_posts_with_ids-IsOff : (ids : List Uuid) → Keeps (On (Lacks jti)) (get_posts_with_ids ids)
  unfolding get_posts_with_ids
  get_posts_with_ids-IsOff ids = search (keeps_rules, lacks_rules, pool_exec-On, fill_posts-IsOff)

  find_page-IsOff :
      (author_id : Uuid) (cursor : Option PostPaginationCursor) (limit : ℕ)
      → Keeps (On (Lacks jti)) (find_page author_id cursor limit)
  unfolding find_page
  find_page-IsOff author_id none limit = search (lacks_rules, pool_exec-On)
  find_page-IsOff author_id (some cursor) limit = search (lacks_rules, pool_exec-On)

  fill_page-IsOff : (rows : List PostRow) → Keeps (On (Lacks jti)) (fill_page rows)
  unfolding fill_page
  fill_page-IsOff [] = search keeps_rules
  fill_page-IsOff (row ∷ rows) = search (keeps_rules, with_attachments-IsOff)

  pub get_posts_by_author_id-IsOff :
      (author_id : Uuid) (cursor : Option PostPaginationCursor) (limit : ℕ)
      → Keeps (On (Lacks jti)) (get_posts_by_author_id author_id cursor limit)
  unfolding get_posts_by_author_id
  get_posts_by_author_id-IsOff author_id cursor limit =
      search (keeps_rules, find_page-IsOff, fill_page-IsOff)
