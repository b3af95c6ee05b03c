-- ===== src/Repositories/Tokens/Others.antt =====
-- The methods of internal/repositories/userRepository.go put no refresh token on the allow list.
use blog_go.Prelude.{String}
use blog_go.Action.Keeps.{Keeps, keeps_rules}
use blog_go.Models.{Uuid}
use blog_go.Database.{User}
use blog_go.Repositories.Transaction.Invariants.{On, pool_exec-On}
use blog_go.Repositories.Tokens.Elsewhere.{Lacks, lacks_rules}
use blog_go.Repositories.Users

module _ (jti : Uuid) where
  pub find_user_by_login_or_email-IsOff :
      (login email : String)
      → Keeps (On (Lacks jti)) (Users.find_user_by_login_or_email login email)
  unfolding Users.find_user_by_login_or_email
  find_user_by_login_or_email-IsOff login email = search (keeps_rules, lacks_rules, pool_exec-On)

  pub add_user-IsOff : (user : User) → Keeps (On (Lacks jti)) (Users.add_user user)
  unfolding Users.add_user
  add_user-IsOff user = search (keeps_rules, lacks_rules, pool_exec-On)

  pub get_subs-IsOff : (id : Uuid) → Keeps (On (Lacks jti)) (Users.get_subs id)
  unfolding Users.get_subs
  get_subs-IsOff id = search (keeps_rules, lacks_rules, pool_exec-On)

  pub subscribe_user_to-IsOff : (a b : Uuid) → Keeps (On (Lacks jti)) (Users.subscribe_user_to a b)
  unfolding Users.subscribe_user_to
  subscribe_user_to-IsOff a b = search (keeps_rules, lacks_rules, pool_exec-On)

  pub unsubscribe_user_from-IsOff :
      (a b : Uuid) → Keeps (On (Lacks jti)) (Users.unsubscribe_user_from a b)
  unfolding Users.unsubscribe_user_from
  unsubscribe_user_from-IsOff a b = search (keeps_rules, lacks_rules, pool_exec-On)
