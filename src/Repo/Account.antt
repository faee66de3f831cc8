-- ===== src/Repo/Account.antt =====
-- backend/internal/repository/user.go, and the read of a parking unit of repository/offer.go.
pub mod Merge
use dsk_agent.Base.{
  ℕ, ◌+◌, not, Bool, ◌&&◌, ◌||◌, Option, none, some, List, [], ◌∷◌, ◌++◌, ◌==◌, ltb, map, find, any,
  select, update_where, opt_eq,
}
use dsk_agent.Base.Int.{ℤ}
use dsk_agent.Base.Sort.{sort}
use dsk_agent.Base.Text.{Text, text_eq}
use dsk_agent.Domain.Error.{user_not_found, ancillary_unit_not_found}
use dsk_agent.Domain.Account.{Role, User, Preferences, ClientPreferences, is_user}
use dsk_agent.Domain.Estate.{AncillaryUnit}
use dsk_agent.Db.{Action, Tables, ◌>>=◌, pure, or_throw, query, exec}

-- `preferences || patch`: the members of the patch, and those of the others that it does not name.
unfoldable pub merged : Preferences → Preferences → Preferences
merged old patch = select (λ m. not (any (λ p. text_eq p.0 m.0) patch)) old ++ patch

-- `COALESCE($2, budget_max)`.
abbrev pub given_or : Option ℤ → Option ℤ → Option ℤ
given_or none old = old
given_or (some b) old = some b

-- The columns that the lists of users read.
abbrev pub listed_user : User → User
listed_user u = record u { password_hash = [] }

abbrev pub bare_user : User → User
bare_user u = record u { password_hash = []; budget_max = none; preferences = [] }

-- The columns that a login reads.
abbrev pub signing_in : Option User → Option User
signing_in none = none
signing_in (some u) = some (record u { budget_max = none; preferences = [] })

abbrev pub preferences_of : User → ClientPreferences
preferences_of u = record {
  client_id = u.id;
  budget_max = u.budget_max;
  preferences = u.preferences;
}

module _ {F : Type 0} where
  -- `GetUserByID`.
  unfoldable pub get_user_by_id : ℕ → Action F User
  get_user_by_id id = do or_throw (← query (λ now t. find (λ u. u.id == id) t.users)) user_not_found

  -- `GetUserByEmail`.
  unfoldable pub get_user_by_email : Text → Action F User
  get_user_by_email email = do
    found ← query (λ now t. find (λ u. text_eq u.email email) t.users)
    or_throw (signing_in found) user_not_found

  -- `CreateUser`: what is returned has no hash.
  unfoldable pub create_user : Text → Text → Text → Role → Action F User
  create_user name email password_hash role = exec λ c now t.
      let row : User = record {
        id = t.next_id;
        name = name;
        email = email;
        password_hash = password_hash;
        role = role;
        budget_max = none;
        preferences = [];
      } in
      (bare_user row, record t { next_id = t.next_id + 1; users = t.users ++ row ∷ [] })

  -- `UpdateUser`.
  unfoldable pub update_user : User → Action F (Unit {0})
  update_user account = exec λ c now t.
      let users =
        update_where (λ u. u.id == account.id)
          (λ u. record u {
            name = account.name;
            email = account.email;
            password_hash = account.password_hash;
          })
          t.users in
      (tt, record t { users = users })

  -- `CanEmployeeAccessUser`.
  unfoldable pub can_employee_access_user : ℕ → ℕ → Action F Bool
  can_employee_access_user employee_id user_id = query λ now t.
      any (λ d. (d.user_id == user_id) && (d.employee_id == employee_id)) t.deals
      || any (λ cs. opt_eq cs.user_id (some user_id) && opt_eq cs.employee_id (some employee_id))
          t.chat_sessions

  -- The two EXISTS of `GetUsersForEmployee`.
  abbrev pub serves : ℕ → Tables F → User → Bool
  serves employee_id t u =
      is_user u.role
      && (any (λ d. (d.user_id == u.id) && (d.employee_id == employee_id)) t.deals
          || any (λ cs. opt_eq cs.user_id (some u.id) && opt_eq cs.employee_id (some employee_id))
              t.chat_sessions)

  -- `GetUsersForEmployee`.
  unfoldable pub get_users_for_employee : ℕ → Action F (List User)
  get_users_for_employee employee_id = exec λ c now t. (
    map listed_user (
        sort (λ u v. c.text_before u.name v.name || (text_eq u.name v.name && ltb u.id v.id))
          (select (serves employee_id t) t.users)),
    t,
  )

  -- `GetAllUsers`.
  unfoldable pub get_all_users : Action F (List User)
  get_all_users = query (λ now t. map bare_user t.users)

  -- `UpdateClientPreferences`.
  unfoldable pub update_client_preferences : ℕ → Option ℤ → Preferences → Action F ClientPreferences
  unfolding merged
  update_client_preferences id budget_max patch = do
    updated ← exec {A = Option User} λ c now t.
        let users =
          update_where (λ u. u.id == id)
            (λ u. record u {
              budget_max = given_or budget_max u.budget_max;
              preferences = merged u.preferences patch;
            })
            t.users in
        (find (λ u. u.id == id) users, record t { users = users })
    row ← or_throw updated user_not_found
    pure (preferences_of row)

  -- `GetAncillaryUnit`, of repository/offer.go.
  unfoldable pub get_ancillary_unit : ℕ → Action F AncillaryUnit
  get_ancillary_unit id = do
    or_throw (← query (λ now t. find (λ u. u.id == id) t.ancillary_units)) ancillary_unit_not_found
