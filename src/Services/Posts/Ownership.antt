-- ===== src/Services/Posts/Ownership.antt =====
-- Whose posts `RemovePostById` of internal/services/postService.go removes, over
-- internal/repositories/postRepository.go.
use blog_go.Prelude.{◌≡◌, ◌≢◌, refl, sym, ap, ◌∙◌, true, not, inl, inr, some, arith, ◌==◌, find?}
use blog_go.Action.{Result, ok, map_err}
use blog_go.Action.Laws.{
  Ensures, Ensures-bind, Ensures-pure, >>=-cases, map_err-eq-ok, map_err-state,
}
use blog_go.Action.Keeps.{Keeps, keeps_rules}
use blog_go.Models.{Uuid, Post}
use blog_go.Database.{Db, Tables, PostRow, Query, Stamp, pool_exec}
use blog_go.Database.Statements.{pool_exec-eq-ok, pool_exec-tables}
use blog_go.Database.Posts
use blog_go.Repositories.Posts.{post_repository, get_post_by_id, to_post}
use blog_go.Services.{Runtime}
use blog_go.Services.Posts.{remove_post_by_id, remove_read, get_error}

-- The tables are as they were.
abbrev HasTables : Tables → Db → Type 0
HasTables t db = db.tables ≡ t

-- A statement that only reads.
read-HasTables :
    {A : Type 0} (q : Query A) (t : Tables)
    → ((stamp : Stamp) (u : Tables) → (q stamp u).1 ≡ u)
    → Keeps (HasTables t) (pool_exec q)
read-HasTables q t reads = record {
  at = λ db same. elim (pool_exec-tables q db) [
    | inl kept ↦ kept ∙ same
    | inr ran ↦ ran ∙ reads (db.stamps db.tick) db.tables ∙ same
  ];
}

module _ (id : Uuid) where
  row-HasTables : (t : Tables) → Keeps (HasTables t) (pool_exec (Posts.find_post_by_id id))
  unfolding Posts.find_post_by_id
  row-HasTables t = read-HasTables (Posts.find_post_by_id id) t (λ stamp u. refl)

  media-HasTables : (t : Tables) → Keeps (HasTables t) (pool_exec (Posts.find_linked_post_media id))
  unfolding Posts.find_linked_post_media
  media-HasTables t = read-HasTables (Posts.find_linked_post_media id) t (λ stamp u. refl)

  get_post_by_id-HasTables : (t : Tables) → Keeps (HasTables t) (get_post_by_id id)
  unfolding get_post_by_id
  get_post_by_id-HasTables t = search (keeps_rules, row-HasTables, media-HasTables)

  row_read :
      (stamp : Stamp) (t t' : Tables) (row row' : PostRow)
      → find? (λ p. p.id == id) t.posts ≡ some row
      → Posts.find_post_by_id id stamp t ≡ (ok row', t')
      → row' ≡ row
  unfolding Posts.find_post_by_id
  row_read stamp t t' row row' found read = ground arith

  get_post_by_id-author :
      (row : PostRow) (db : Db)
      → find? (λ p. p.id == id) db.tables.posts ≡ some row
      → Ensures (λ post db'. post.author_id ≡ row.author_id) (get_post_by_id id db)
  unfolding get_post_by_id to_post
  get_post_by_id-author row db found = Ensures-bind _ _ db λ row' d1 read.
      Ensures-bind _ _ d1 λ media d2 linked. Ensures-pure _ d2 (
        ap (λ (r : PostRow). r.author_id)
          (row_read _ db.tables d1.tables row row' found
            (pool_exec-eq-ok (Posts.find_post_by_id id) db d1 row' (map_err-eq-ok _ _ db read))))

-- Nobody removes the post of another: for a stored post and a user who is not its author,
-- `RemovePostById` returns no post and changes no table, whatever the database answers.
pub remove_post_by_id-foreign :
    (rt : Runtime Db) (id user_id : Uuid) (row : PostRow) (db : Db) (removed : Post)
    → find? (λ p. p.id == id) db.tables.posts ≡ some row
    → row.author_id ≢ user_id
    → ((remove_post_by_id rt post_repository id user_id db).1.tables ≡ db.tables)
      × ((remove_post_by_id rt post_repository id user_id db).0 ≢ ok removed)
unfolding remove_post_by_id remove_read post_repository
remove_post_by_id-foreign rt id user_id row db removed found other =
    let get = get_post_by_id id in
    let look = map_err (get_error "failed to get post by id") get in
    let tables = (get_post_by_id-HasTables id db.tables).at db refl in
    elim (>>=-cases look (remove_read rt post_repository user_id) db) [
      | inl (e, u, failed, out) ↦ (
        ap (λ (r : Result Post × Db). r.1.tables) out
            ∙ ap (λ (d : Db). d.tables)
                (sym (ap (λ (r : Result Post × Db). r.1) failed) ∙ map_err-state _ get db)
            ∙ tables,
        λ h. absurd (ground arith),
      )
      | inr (post, u, got, out) ↦
          let call = map_err-eq-ok (get_error "failed to get post by id") get db got in
          let author = (get_post_by_id-author id row db found).at post u call in
          let refused : not (post.author_id == user_id) ≡ true = ground (arith, other) in
          let kept = ap (λ (r : Result Post × Db). r.1.tables) (sym call) ∙ tables in
          (ground arith, λ h. ground arith)
    ]
