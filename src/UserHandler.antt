-- ===== src/UserHandler.antt =====
-- The handlers of backend/internal/handler/user.go.
use dsk_agent.Base.{ℕ, Bool, not, Option, List, if◌then◌else◌}
use dsk_agent.Base.Text.{Text, codes}
use dsk_agent.Domain.Error.{Result}
use dsk_agent.Domain.Account.{User, UpdateUserRequest, is_manager, is_supervisor}
use dsk_agent.Db.{pure}
use dsk_agent.UserService as Service
use dsk_agent.AuthService.{generate_token}
use dsk_agent.AuthHandler.{LoginAnswer, logged_in}
use dsk_agent.Http.{
  http_error, http_cause, panicked, written, forbidden, unauthorized, bad_body, Handler, refuse,
  need, call, reply,
}

module _ {F : Type 0} where
  -- `GetUsers`.
  unfoldable pub get_users : Option User → Handler F (List User)
  get_users u = need u unauthorized λ actor.
      reply 200
        (if is_supervisor actor.role
          then Service.get_all_users
          else Service.get_users_for_employee actor.id)
        (http_cause 500)

  abbrev pub found_user : ℕ → Handler F User
  found_user id = reply 200 (Service.get_user id) (http_cause 404)

  -- `GetUser`.
  unfoldable pub get_user : Option User → Option ℕ → Handler F User
  get_user u raw = need raw (http_error 400 (codes "invalid user id")) λ id.
      need u unauthorized λ actor.
        if is_manager actor.role
        then call (Service.can_employee_access_user actor.id id) (http_cause 500)
            (λ allowed. if not allowed then refuse forbidden else found_user id)
        else found_user id

  -- `GetMe`.
  unfoldable pub get_me : Option User → Handler F User
  get_me u = need u panicked λ v. found_user v.id

  module _ (generate : ℕ → Text → Result Text) (matches : Text → Text → Bool)
      (sign : User → ℕ → Result Text) where
    -- `UpdateMe`: the new token goes with the changed user.
    unfoldable pub update_me : Option User → Option UpdateUserRequest → Handler F LoginAnswer
    update_me u body = need u panicked λ v. need body bad_body λ req.
        call (Service.update_user generate v.id req) (http_cause 500) λ changed.
          call (generate_token matches sign changed)
            (λ e. http_error 500 (codes "failed to generate new token"))
            λ token. pure (written 200 (logged_in token changed))
