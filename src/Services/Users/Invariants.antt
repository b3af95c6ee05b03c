-- ===== src/Services/Users/Invariants.antt =====
-- internal/services/userAccessService.go keeps what its repository keeps.
use blog_go.Action.Keeps.{Keeps, Keeps-bind, keeps_rules}
use blog_go.Models.{Uuid, UserRegisterInfo}
use blog_go.Repositories.{UserRepository}
use blog_go.Repositories.Invariants.{UsersKeep, RuntimeKeeps}
use blog_go.Services.{Runtime}
use blog_go.Services.Users.{
  get_user_by_login_or_email, subscribe_to, unsubscribe_from, register, create_user,
}

module _ {W : Type 0} {P : W → Type 0} {rt : Runtime W} {users : UserRepository W}
    (runtime : RuntimeKeeps P rt) (keep : UsersKeep P users) where
  register-Keeps : (info : UserRegisterInfo) → Keeps P (register rt users info)
  unfolding register
  register-Keeps info =
      Keeps-bind _ _ (search (keeps_rules, runtime.create_hash))
        λ _ _ _. Keeps-bind _ _ runtime.new_uuid λ _ _ _. search (keeps_rules, keep.add_user)

  pub create_user-Keeps : (info : UserRegisterInfo) → Keeps P (create_user rt users info)
  unfolding create_user get_user_by_login_or_email
  create_user-Keeps info = search (keeps_rules, keep.find_user, register-Keeps)

  pub subscribe_to-Keeps : (who whom : Uuid) → Keeps P (subscribe_to users who whom)
  unfolding subscribe_to
  subscribe_to-Keeps who whom = search (keeps_rules, keep.subscribe)

  pub unsubscribe_from-Keeps : (who whom : Uuid) → Keeps P (unsubscribe_from users who whom)
  unfolding unsubscribe_from
  unsubscribe_from-Keeps who whom = search (keeps_rules, keep.unsubscribe)
