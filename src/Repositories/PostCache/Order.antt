-- ===== src/Repositories/PostCache/Order.antt =====
-- The order of what `GetPostsWithIds` of internal/repositories/postCacheWrapper.go returns.
use blog_go.Prelude.{◌≡◌, ◌≢◌, List, [], ◌∷◌, ◌++◌, arith}
use blog_go.Action.{ok, branch, ◌>>=◌, swallow}
use blog_go.Models.{Uuid, Post}
use blog_go.Cache.{PostCacher}
use blog_go.Repositories.{PostRepository}
use blog_go.Repositories.PostCache.{
  post_by_id, ordered_posts, return_posts, fetch_missed, get_posts_with_ids,
}

module _ {W : Type 0} (repo : PostRepository W) (cache : PostCacher W) where
  -- The posts come as the cache had them and then as the database had them, whatever the order of the
  -- ids: for a cache that missed at least one id and a database that answers.
  pub get_posts_with_ids-eq :
      (ids missed : List Uuid) (id : Uuid) (cached posts : List Post) (w w1 w2 : W)
      → cache.get_posts_with_ids ids w ≡ (ok (cached, id ∷ missed), w1)
      → repo.get_posts_with_ids (id ∷ missed) w1 ≡ (ok posts, w2)
      → (get_posts_with_ids repo cache ids w).0 ≡ ok (cached ++ posts)
  unfolding get_posts_with_ids fetch_missed return_posts branch ◌>>=◌ swallow
  get_posts_with_ids-eq ids missed id cached posts w w1 w2 found fetched = ground arith

  -- Two posts, the first of which is not cached: they are returned in the wrong order, while the list
  -- that the method computes from them and drops has the order of the ids.
  pub get_posts_with_ids-out_of_order :
      (p q : Post) (w w1 w2 : W)
      → p.id ≢ q.id
      → cache.get_posts_with_ids (p.id ∷ q.id ∷ []) w ≡ (ok (q ∷ [], p.id ∷ []), w1)
      → repo.get_posts_with_ids (p.id ∷ []) w1 ≡ (ok (p ∷ []), w2)
      → ((get_posts_with_ids repo cache (p.id ∷ q.id ∷ []) w).0 ≡ ok (q ∷ p ∷ []))
        × (ordered_posts (q ∷ p ∷ []) (p.id ∷ q.id ∷ []) ≡ p ∷ q ∷ [])
  unfolding ordered_posts post_by_id
  get_posts_with_ids-out_of_order p q w w1 w2 differ found fetched = (
    get_posts_with_ids-eq (p.id ∷ q.id ∷ []) [] p.id (q ∷ []) (p ∷ []) w w1 w2 found fetched,
    ground arith,
  )
