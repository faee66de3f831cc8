-- ===== src/UserService/Update.antt =====
-- What an update of a user leaves as it is.
use dsk_agent.Base.{ℕ, ◌≡◌, refl, ◌==◌, Option, List, map, find, update_where}
use dsk_agent.Base.Int.{ℤ}
use dsk_agent.Base.Text.{Text, is_empty}
use dsk_agent.Base.Rows.{keys-update_where}
use dsk_agent.Domain.Error.{Result, user_not_found}
use dsk_agent.Domain.Account.{User, UpdateUserRequest, Role, Preferences}
use dsk_agent.Db.{World, Store, Tables, Columns, pure, ◌>>=◌, ◌>>◌, Action, or_throw, exec}
use dsk_agent.Db.Laws.{IsQuiet}
use dsk_agent.Db.Keeps.{Keeps, Keeps-pure, Keeps-or_throw, Keeps-exec, Keeps-bind, Keeps-if}
use dsk_agent.Repo.Account
use dsk_agent.AuthService.{hash_now}
use dsk_agent.UserService.{update_user, new_hash, with_names}

-- What identifies the users, what they may do, and what is known of them as clients.
abbrev pub standing : User → ℕ × Role × Option ℤ × Preferences
standing u = (u.id, u.role, u.budget_max, u.preferences)

abbrev pub standings : {F : Type 0} → Tables F → List (ℕ × Role × Option ℤ × Preferences)
standings t = map standing t.users

module _ {F : Type 0} (w : World F) (quiet : IsQuiet w) where
  get_user-Keeps : (id : ℕ) → Keeps {F = F} standings w (Account.get_user_by_id id)
  unfolding dsk_agent.Repo.Account.get_user_by_id
  get_user-Keeps id =
      let read : Columns F → ℕ → Tables F → Option User × Tables F =
        λ c now t. (find (λ u. u.id == id) t.users, t) in
      Keeps-bind standings w (exec read) (λ o. or_throw o user_not_found)
        (Keeps-exec standings w quiet read (λ c now t. refl))
        (λ o. Keeps-or_throw standings w o user_not_found)

  write-Keeps : (u : User) → Keeps {F = F} standings w (Account.update_user u)
  unfolding dsk_agent.Repo.Account.update_user
  write-Keeps u =
      let change : User → User =
        λ x. record x { name = u.name; email = u.email; password_hash = u.password_hash } in
      let step : Columns F → ℕ → Tables F → Unit {0} × Tables F =
        λ c now t. (tt, record t { users = update_where (λ x. x.id == u.id) change t.users }) in
      Keeps-exec standings w quiet step
        (λ c now t. keys-update_where standing (λ x. x.id == u.id) change (λ x. refl) t.users)

  hash-Keeps :
      (generate : ℕ → Text → Result Text) (password old : Text)
      → Keeps {F = F} standings w (new_hash generate password old)
  hash-Keeps generate password old =
      Keeps-if standings w (is_empty password) (pure old) (hash_now generate password)
        (Keeps-pure standings w old) (λ s. refl)

  -- In a quiet world an update of a user, whether it succeeds or fails, adds and removes nobody and changes nobody's
  -- id, role, budget or preferences.
  pub update_user-standings :
      (generate : ℕ → Text → Result Text) (id : ℕ) (req : UpdateUserRequest) (s : Store F)
      → standings (update_user generate id req w s).1.tables ≡ standings s.tables
  unfolding update_user
  update_user-standings generate id req =
      let changed : User → Text → User =
        λ found hash. record (with_names req found) { password_hash = hash } in
      let write : User → Text → Action F User =
        λ found hash. Account.update_user (changed found hash) >> pure (changed found hash) in
      Keeps-bind standings w (Account.get_user_by_id id)
        (λ found. new_hash generate req.password found.password_hash >>= write found)
        (get_user-Keeps id)
        λ found.
          Keeps-bind standings w (new_hash generate req.password found.password_hash) (write found)
            (hash-Keeps generate req.password found.password_hash)
            λ hash.
              Keeps-bind standings w (Account.update_user (changed found hash))
                (λ x. pure (changed found hash)) (write-Keeps (changed found hash))
                (λ x. Keeps-pure standings w (changed found hash))
