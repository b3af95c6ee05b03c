-- ===== src/Repositories/Accounts/Writes.antt =====
-- Any history of writes through internal/repositories/userRepository.go and tokenRepository.go.
use blog_go.Prelude.{List, [], ◌∷◌, ◌==◌}
use blog_go.Action.Keeps.{Keeps-map_err, Keeps-branch, Keeps-bind, Keeps-if, Keeps-fail, Keeps-pure}
use blog_go.Models.{Uuid, Time}
use blog_go.Database.{Db, User}
use blog_go.Repositories.Transaction.Invariants.{pool_exec-On}
use blog_go.Repositories.Users.{add_user, subscribe_user_to, unsubscribe_user_from}
use blog_go.Repositories.Tokens.{add_token, try_to_delete_token, delete_all_user_tokens}
use blog_go.Repositories.Accounts.{
  IsSound, add_user-KeepsSound, subscribe-KeepsSound, unsubscribe-KeepsSound, add_token-KeepsSound,
  delete_token-KeepsSound, delete_tokens-KeepsSound,
}

abbrev pub Sound : Db → Type 0
Sound db = IsSound db.tables

-- A write of the two repositories.
pub data Write : Type 0 where
  adds_user : User → Write
  subscribes unsubscribes : Uuid → Uuid → Write
  adds_token : Uuid → Uuid → Time → Write
  deletes_token deletes_tokens : Uuid → Write

pub after_write : Write → Db → Db
after_write (adds_user u) db = (add_user u db).1
after_write (subscribes a b) db = (subscribe_user_to a b db).1
after_write (unsubscribes a b) db = (unsubscribe_user_from a b db).1
after_write (adds_token jti u at) db = (add_token jti u at db).1
after_write (deletes_token jti) db = (try_to_delete_token jti db).1
after_write (deletes_tokens u) db = (delete_all_user_tokens u db).1

unfoldable pub after_writes : List Write → Db → Db
unfolding after_write
after_writes [] db = db
after_writes (write ∷ writes) db = after_writes writes (after_write write db)

after_write-Sound : (write : Write) (db : Db) → Sound db → Sound (after_write write db)
unfolding after_write add_user subscribe_user_to unsubscribe_user_from add_token try_to_delete_token
    delete_all_user_tokens
after_write-Sound (adds_user u) db s =
    (Keeps-map_err _ _ (pool_exec-On IsSound _ (add_user-KeepsSound u))).at db s
after_write-Sound (subscribes a b) db s =
    (Keeps-map_err _ _ (pool_exec-On IsSound _ (subscribe-KeepsSound a b))).at db s
after_write-Sound (unsubscribes a b) db s =
    (Keeps-branch _ _ _ (pool_exec-On IsSound _ (unsubscribe-KeepsSound a b))
        (λ cnt w e. Keeps-if (cnt == 0) _ _ (Keeps-fail _) (Keeps-pure tt))
        (λ x w e. Keeps-fail _)).at
      db s
after_write-Sound (adds_token jti u at) db s =
    (Keeps-map_err _ _ (pool_exec-On IsSound _ (add_token-KeepsSound _))).at db s
after_write-Sound (deletes_token jti) db s =
    (Keeps-bind _ _ (pool_exec-On IsSound _ (delete_token-KeepsSound jti))
        (λ cnt w e. Keeps-pure _)).at
      db s
after_write-Sound (deletes_tokens u) db s =
    (pool_exec-On IsSound _ (delete_tokens-KeepsSound u)).at db s

-- Whatever the repositories of users and tokens write, in any order and with any failures of the
-- database, sound tables stay sound: no two users share an identifier, a login or an e-mail, nobody
-- follows himself or somebody twice, no refresh token stands twice, and all of them are of stored users.
pub after_writes-IsSound :
    (writes : List Write) (db : Db) → IsSound db.tables → IsSound (after_writes writes db).tables
unfolding after_writes
after_writes-IsSound [] db s = s
after_writes-IsSound (write ∷ writes) db s =
    after_writes-IsSound writes (after_write write db) (after_write-Sound write db s)
