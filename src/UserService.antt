-- ===== src/UserService.antt =====
-- backend/internal/service/user.go. `generate` is bcrypt's, as in AuthService.
pub mod Update
use dsk_agent.Base.{ℕ, Bool, Option, List, if◌then◌else◌}
use dsk_agent.Base.Int.{ℤ}
use dsk_agent.Base.Text.{Text, is_empty}
use dsk_agent.Domain.Error.{Result}
use dsk_agent.Domain.Account.{User, UpdateUserRequest, Preferences, ClientPreferences}
use dsk_agent.Db.{Action, ◌>>=◌, ◌>>◌, pure}
use dsk_agent.Repo.Account
use dsk_agent.AuthService.{hash_now}

abbrev pub replaced : Text → Text → Text
replaced new old = if is_empty new then old else new

-- The name and the email of the request, where it has them.
unfoldable pub with_names : UpdateUserRequest → User → User
with_names req u = record u { name = replaced req.name u.name; email = replaced req.email u.email }

module _ {F : Type 0} where
  -- `GetUser`.
  unfoldable pub get_user : ℕ → Action F User
  get_user id = Account.get_user_by_id id

  -- `GetAllUsers`.
  unfoldable pub get_all_users : Action F (List User)
  get_all_users = Account.get_all_users

  -- `GetUsersForEmployee`.
  unfoldable pub get_users_for_employee : ℕ → Action F (List User)
  get_users_for_employee employee_id = Account.get_users_for_employee employee_id

  -- `CanEmployeeAccessUser`.
  unfoldable pub can_employee_access_user : ℕ → ℕ → Action F Bool
  can_employee_access_user employee_id user_id =
      Account.can_employee_access_user employee_id user_id

  -- `UpdateClientPreferences`.
  unfoldable pub update_client_preferences : ℕ → Option ℤ → Preferences → Action F ClientPreferences
  update_client_preferences id budget_max preferences =
      Account.update_client_preferences id budget_max preferences

  module _ (generate : ℕ → Text → Result Text) where
    -- The new hash, where the request has a password.
    abbrev pub new_hash : Text → Text → Action F Text
    new_hash password old = if is_empty password then pure old else hash_now generate password

    -- `UpdateUser`.
    unfoldable pub update_user : ℕ → UpdateUserRequest → Action F User
    unfolding with_names
    update_user id req = do
      found ← Account.get_user_by_id id
      hash ← new_hash req.password found.password_hash
      let changed : User = record (with_names req found) { password_hash = hash }
      Account.update_user changed
      pure changed
