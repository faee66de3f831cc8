-- ===== src/AuthService/RoundTrip.antt =====
-- Who has registered can log in (backend/internal/service/auth.go).
use dsk_agent.Base.{ℕ, ◌+◌, ◌≡◌, refl, ap, ◌∙◌, Bool, true, Option, none, some, find, [], ◌∷◌, ◌++◌}
use dsk_agent.Base.Text.{Text, text_eq, text_eq_refl}
use dsk_agent.Base.Rows.{find-append}
use dsk_agent.Domain.Error.{Result, ok, err, user_not_found}
use dsk_agent.Domain.Account.{User, Role}
use dsk_agent.Db.{Columns, World, Store, Tables, exec, or_throw, pure, ◌>>=◌, lift}
use dsk_agent.Db.Laws.{IsQuiet, exec-quiet, bind-run}
use dsk_agent.Repo.Account.{get_user_by_email, create_user, bare_user, signing_in}
use dsk_agent.AuthService.{register_staff, login}

-- A login with this token and user, or the error of the signing.
abbrev pub with_token : User → Result Text → Result (Text × User)
with_token account (ok token) = ok (token, account)
with_token account (err e) = err e

abbrev pub found_or : Option User → Result User
found_or none = err user_not_found
found_or (some account) = ok account

module _ {F : Type 0} (w : World F) (quiet : IsQuiet w) where
  or_throw-found : (o : Option User) (s : Store F) → or_throw o user_not_found w s ≡ (found_or o, s)
  or_throw-found none s = refl
  or_throw-found (some account) s = refl

  signed :
      (r : Result Text) (account : User) (s : Store F)
      → ((lift r >>= λ token. pure (token, account)) w s).0 ≡ with_token account r
  signed (ok token) account s = refl
  signed (err e) account s = refl

  get_user_by_email-quiet :
      (email : Text) (s : Store F)
      → get_user_by_email email w s ≡ (
        found_or (signing_in (find (λ u. text_eq u.email email) s.tables.users)),
        record s { tick = s.tick + 1 },
      )
  unfolding get_user_by_email
  get_user_by_email-quiet email s =
      let read : Columns F → ℕ → Tables F → Option User × Tables F =
        λ c now t. (find (λ u. text_eq u.email email) t.users, t) in
      bind-run (exec read) (λ found. or_throw (signing_in found) user_not_found) w s
        (exec-quiet w quiet read s)
      ∙ or_throw-found _ (record s { tick = s.tick + 1 })

  -- In a quiet world, where nobody has the email, bcrypt makes a hash of the password and accepts the
  -- password for it, the registration succeeds with a user of the requested name, email and role and no
  -- hash, and a login with the same email and password then gives that user with the hash, and with a
  -- token for it or the error of the signing.
  pub login-register :
      (generate : ℕ → Text → Result Text) (matches : Text → Text → Bool)
      (sign : User → ℕ → Result Text) (s : Store F) (name email password hash : Text) (role : Role)
      → find (λ u. text_eq u.email email) s.tables.users ≡ none
      → generate (s.tick + 1) password ≡ ok hash
      → matches hash password ≡ true
      → (u : User) × (s' : Store F) × (register_staff generate name email password role w s
          ≡ (ok u, s'))
        × (u.name ≡ name)
        × (u.email ≡ email)
        × (u.role ≡ role)
        × (u.password_hash ≡ [])
        × (let known : User = record u { password_hash = hash } in
            (login matches sign email password w s').0
            ≡ with_token known (sign known (w.slot (s'.tick + 1)).now))
  unfolding register_staff login create_user
  login-register generate matches sign s name email password hash role fresh made fits =
      let row : User = record {
        id = s.tables.next_id;
        name = name;
        email = email;
        password_hash = hash;
        role = role;
        budget_max = none;
        preferences = [];
      } in
      let users = s.tables.users ++ row ∷ [] in
      let s' : Store F = record s {
        tables = record s.tables { next_id = s.tables.next_id + 1; users = users };
        tick = s.tick + 1 + 1;
      } in
      let step : Columns F → ℕ → Tables F → User × Tables F = λ c now t.
        let made : User = record row { id = t.next_id } in
        (bare_user made, record t { next_id = t.next_id + 1; users = t.users ++ made ∷ [] }) in
      let absent =
        get_user_by_email-quiet email s
        ∙ ap (λ o. (found_or (signing_in o), record s { tick = s.tick + 1 })) fresh in
      let created = exec-quiet w quiet step (record s { tick = s.tick + 1 }) in
      let kept =
        find-append (λ u. text_eq u.email email) s.tables.users row fresh (text_eq_refl email) in
      let present =
        get_user_by_email-quiet email s'
        ∙ ap (λ o. (found_or (signing_in o), record s' { tick = s'.tick + 1 })) kept in
      (
        bare_user row,
        s',
        rw absent (rw made created),
        refl,
        refl,
        refl,
        refl,
        rw present (rw fits (signed _ row (record s' { tick = s'.tick + 1 }))),
      )
