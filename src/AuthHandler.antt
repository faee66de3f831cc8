-- ===== src/AuthHandler.antt =====
-- backend/internal/handler/auth.go: registration, login and the middleware. What it uses of package
-- jwt, bcrypt and encoding/json are parameters, as in AuthService.
use dsk_agent.Base.{
  ℕ, Bool, true, false, not, ◌&&◌, ◌||◌, Option, none, some, List, [], ◌∷◌, if◌then◌else◌,
}
use dsk_agent.Base.Text.{Text, codes, text_eq, is_empty}
use dsk_agent.Base.Strconv.{split}
use dsk_agent.Domain.Error.{Err, Result, user_exists, invalid_credentials}
use dsk_agent.Domain.Account.{User, Role, manager, is_manager, is_supervisor}
use dsk_agent.Db.{pure}
use dsk_agent.AuthService.{Claims, Validation, valid, invalid, panics, role_of, validate_token}
use dsk_agent.AuthService as Service
use dsk_agent.Http.{
  Refusal, http_error, http_cause, panicked, written, bad_body, Handler, refuse, need, call, reply,
}

-- `RegisterRequest` and `LoginRequest`.
pub record RegisterRequest : Type 0 where
  pub name : Text
  pub email : Text
  pub password : Text
  pub role : Text

pub record LoginRequest : Type 0 where
  pub email : Text
  pub password : Text

-- The cookie `token`: its value, and its age in seconds, or none for a cookie that is deleted.
pub record Cookie : Type 0 where
  pub value : Text
  pub max_age : Option ℕ

-- What a login writes: the cookie, and the body with the token and the user.
pub record LoginAnswer : Type 0 where
  pub cookie : Cookie
  pub token : Text
  pub user : User

-- Where a request carries a token: its header `Authorization`, empty where there is none, and its
-- cookie `token`.
pub record Credentials : Type 0 where
  pub authorization : Text
  pub cookie : Option Text

abbrev pub auth_cookie : Text → Cookie
auth_cookie token = record { value = token; max_age = some 86400 }

abbrev pub is_staff : Role → Bool
is_staff role = is_manager role || is_supervisor role

abbrev is_user_exists : Err → Bool
is_user_exists user_exists = true
is_user_exists _ = false

abbrev is_invalid_credentials : Err → Bool
is_invalid_credentials invalid_credentials = true
is_invalid_credentials _ = false

abbrev pub registration_failure : Err → Refusal
registration_failure e = http_cause (if is_user_exists e then 409 else 500) e

abbrev pub login_failure : Err → Refusal
login_failure e = http_cause (if is_invalid_credentials e then 401 else 500) e

-- The role that `CreateStaff` gives; none where the body names another.
unfoldable pub staff_role : Text → Option Role
staff_role text =
    if is_empty text
    then some manager
    else if not (text_eq text (codes "manager")) && not (text_eq text (codes "supervisor"))
    then none
    else some (role_of text)

abbrev pub no_token : Refusal
no_token = http_error 401 (codes "missing or invalid authorization token")

abbrev pub bad_token : Refusal
bad_token = http_error 401 (codes "invalid token")

abbrev pub no_staff : Refusal
no_staff = http_error 403 (codes "forbidden: requires staff role")

abbrev pub no_supervisor : Refusal
no_supervisor = http_error 403 (codes "forbidden: requires supervisor role")

abbrev bearer : List Text → Text
bearer [] = []
bearer (a ∷ []) = []
bearer (a ∷ b ∷ []) = if text_eq a (codes "Bearer") then b else []
bearer (a ∷ b ∷ c ∷ l) = []

abbrev cookie_value : Option Text → Text
cookie_value none = []
cookie_value (some value) = value

-- The token of the header, or else that of the cookie.
unfoldable pub token_of : Credentials → Text
unfolding split
token_of c =
    let token = bearer (split b' ' c.authorization) in
    if is_empty token then cookie_value c.cookie else token

abbrev pub logged_in : Text → User → LoginAnswer
logged_in token account = record { cookie = auth_cookie token; token = token; user = account }

module _ {F : Type 0} where
  module _ (generate : ℕ → Text → Result Text) where
    -- `Register`.
    unfoldable pub register : Option RegisterRequest → Handler F User
    register body = need body bad_body λ req.
        reply 201 (Service.register generate req.name req.email req.password) registration_failure

    -- `CreateStaff`.
    unfoldable pub create_staff : Option RegisterRequest → Handler F User
    create_staff body = need body bad_body λ req.
        need (staff_role req.role) (http_error 400 (codes "invalid role")) λ role.
          reply 201 (Service.register_staff generate req.name req.email req.password role)
            registration_failure

  module _ (matches : Text → Text → Bool) (sign : User → ℕ → Result Text) where
    -- `LoginStaff`.
    unfoldable pub login_staff : Option LoginRequest → Handler F LoginAnswer
    login_staff body = need body bad_body λ req.
        call (Service.login matches sign req.email req.password) login_failure λ found.
          let (token, account) = found in
          if not (is_staff account.role)
          then refuse (http_error 403 (codes "access denied"))
          else pure (written 200 (logged_in token account))

    -- `Login`.
    unfoldable pub login : Option LoginRequest → Handler F LoginAnswer
    login body = need body bad_body λ req.
        call (Service.login matches sign req.email req.password) login_failure
          λ found. let (token, account) = found in pure (written 200 (logged_in token account))

  -- `Profile`.
  unfoldable pub profile : Option User → Handler F User
  profile u = need u panicked λ account. pure (written 200 account)

  -- `Logout`.
  unfoldable pub logout : Handler F (Cookie × Text)
  logout =
      let gone : Cookie = record { value = []; max_age = none } in
      pure (written 200 (gone, codes "logged out successfully"))

  module _ {A : Type 0} where
    -- What the two middlewares make of the check of a token.
    abbrev pub admitted : (Option User → Handler F A) → Validation → Handler F A
    admitted next (valid account) = next (some account)
    admitted next invalid = refuse bad_token
    admitted next panics = refuse panicked

    abbrev pub admitted_or_guest : (Option User → Handler F A) → Validation → Handler F A
    admitted_or_guest next (valid account) = next (some account)
    admitted_or_guest next invalid = next none
    admitted_or_guest next panics = refuse panicked

    -- `AuthMiddleware`.
    unfoldable pub auth_middleware :
        (Text → Option Claims) → Credentials → (Option User → Handler F A) → Handler F A
    unfolding token_of
    auth_middleware parse c next =
        if is_empty (token_of c)
        then refuse no_token
        else admitted next (validate_token parse (token_of c))

    -- `OptionalAuthMiddleware`.
    unfoldable pub optional_auth_middleware :
        (Text → Option Claims) → Credentials → (Option User → Handler F A) → Handler F A
    unfolding token_of
    optional_auth_middleware parse c next =
        if is_empty (token_of c)
        then next none
        else admitted_or_guest next (validate_token parse (token_of c))

    -- `RequireStaffRole` and `RequireSupervisorRole`.
    unfoldable pub require_staff_role : (Option User → Handler F A) → Option User → Handler F A
    require_staff_role next none = refuse no_staff
    require_staff_role next (some account) =
        if not (is_staff account.role) then refuse no_staff else next (some account)

    unfoldable pub require_supervisor_role : (Option User → Handler F A) → Option User → Handler F A
    require_supervisor_role next none = refuse no_supervisor
    require_supervisor_role next (some account) =
        if not (is_supervisor account.role) then refuse no_supervisor else next (some account)
