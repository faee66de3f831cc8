-- ===== src/Tests/Logins.antt =====
-- Registration and login.
use dsk_agent.Base.{ℕ, ◌≡◌, refl, []}
use dsk_agent.Base.Text.{text_eq, Text, codes}
use dsk_agent.Domain.Error.{Result, ok}
use dsk_agent.Domain.Account.{User, Role}
use dsk_agent.Db.{Store}
use dsk_agent.AuthService.{register_staff, login}
use dsk_agent.AuthService.RoundTrip.{login-register, with_token}
use dsk_agent.Tests.Data.{state, quiet_world, quiet_world-IsQuiet}

abbrev as_hash : ℕ → Text → Result Text
as_hash salt password = ok password

abbrev as_token : User → ℕ → Result Text
as_token account now = ok account.email

login-register_example :
    (u : User) × (s' : Store ℕ) × (register_staff as_hash
        (codes "A")
        (codes "a@b")
        (codes "pw")
        Role.manager
        quiet_world
        state
      ≡ (ok u, s'))
    × (u.name ≡ codes "A")
    × (u.email ≡ codes "a@b")
    × (u.role ≡ Role.manager)
    × (u.password_hash ≡ [])
    × (let known : User = record u { password_hash = codes "pw" } in
        (login text_eq as_token (codes "a@b") (codes "pw") quiet_world s').0
        ≡ with_token known (as_token known 60))
login-register_example =
    login-register quiet_world quiet_world-IsQuiet as_hash text_eq as_token state (codes "A")
      (codes "a@b") (codes "pw") (codes "pw") Role.manager refl refl refl
