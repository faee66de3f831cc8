-- ===== src/AuthService.antt =====
-- backend/internal/service/auth.go: registration and login. bcrypt and the signing of tokens are parameters:
-- `generate` makes a hash of a password (its number stands for the salt), `matches` compares a hash with a
-- password, and `sign` makes a token for a user at a time.
-- `parse` gives the claims of a token that golang-jwt finds valid.
pub mod RoundTrip
use dsk_agent.Base.{ℕ, Bool, true, false, not, Option, none, some, [], if◌then◌else◌}
use dsk_agent.Base.Text.{Text, codes, text_eq}
use dsk_agent.Domain.Error.{Err, Result, ok, err, user_not_found, invalid_credentials, user_exists}
use dsk_agent.Domain.Account.{User, Role, user, manager, supervisor, other}
use dsk_agent.Db.{Action, ◌>>=◌, ◌>>◌, pure, lift, attempt, refuse_if}
use dsk_agent.Repo.Account.{get_user_by_email, create_user}

abbrev is_user_not_found : Err → Bool
is_user_not_found user_not_found = true
is_user_not_found _ = false

-- The check that nobody has the email.
unfoldable pub email_free : Result User → Result (Unit {0})
email_free (ok account) = err user_exists
email_free (err e) = if is_user_not_found e then ok tt else err e

-- What `Login` makes of the search for the user.
unfoldable pub known_user : Result User → Result User
known_user (ok account) = ok account
known_user (err e) = if is_user_not_found e then err invalid_credentials else err e

module _ {F : Type 0} (generate : ℕ → Text → Result Text) where
  abbrev pub hash_now : Text → Action F Text
  hash_now password w s = (generate s.tick password, s)

  -- `RegisterStaff`.
  unfoldable pub register_staff : Text → Text → Text → Role → Action F User
  unfolding email_free
  register_staff name email password role = do
    existing ← attempt (get_user_by_email email)
    lift (email_free existing)
    hash ← hash_now password
    create_user name email hash role

  -- `Register`.
  unfoldable pub register : Text → Text → Text → Action F User
  unfolding register_staff
  register name email password = register_staff name email password user

module _ {F : Type 0} (matches : Text → Text → Bool) (sign : User → ℕ → Result Text) where
  -- `GenerateToken`.
  abbrev pub generate_token : User → Action F Text
  generate_token account w s = (sign account (w.slot s.tick).now, s)

  -- `Login`.
  unfoldable pub login : Text → Text → Action F (Text × User)
  unfolding known_user
  login email password = do
    found ← attempt (get_user_by_email email)
    account ← lift (known_user found)
    refuse_if (not (matches account.password_hash password)) invalid_credentials
    token ← generate_token account
    pure (token, account)

-- The claims that `ValidateToken` asserts the types of; one that is absent or of another type is none.
pub record Claims : Type 0 where
  pub id : Option ℕ
  pub name : Option Text
  pub email : Option Text
  pub role : Option Text

-- What `ValidateToken` does: a user, an error, or a panic of a type assertion.
pub data Validation : Type 0 where
  valid : User → Validation
  invalid panics : Validation

-- `domain.Role(role)`.
unfoldable pub role_of : Text → Role
role_of text =
    if text_eq text (codes "user")
    then user
    else if text_eq text (codes "manager")
    then manager
    else if text_eq text (codes "supervisor")
    then supervisor
    else other text

abbrev pub claimed_user : ℕ → Text → Text → Role → User
claimed_user id name email role = record {
  id = id;
  name = name;
  email = email;
  password_hash = [];
  role = role;
  budget_max = none;
  preferences = [];
}

-- The four assertions.
unfoldable pub user_of_claims : Claims → Validation
unfolding role_of
user_of_claims c = elim c.id [
  | none ↦ panics
  | some id ↦ elim c.name [
    | none ↦ panics
    | some name ↦ elim c.email [
      | none ↦ panics
      | some email ↦ elim c.role [
        | none ↦ panics
        | some role ↦ valid (claimed_user id name email (role_of role))
      ]
    ]
  ]
]

-- `ValidateToken`.
unfoldable pub validate_token : (Text → Option Claims) → Text → Validation
unfolding user_of_claims
validate_token parse token = elim (parse token) [ none ↦ invalid | some c ↦ user_of_claims c ]
