-- ===== src/Domain/Account.antt =====
-- backend/internal/domain/user.go. A map of preferences is the list of its members, each a key and the
-- text of its JSON value.
use dsk_agent.Base.{ℕ, Bool, true, false, Option, List}
use dsk_agent.Base.Int.{ℤ}
use dsk_agent.Base.Text.{Text}

pub data Role : Type 0 where
  user manager supervisor : Role
  other : Text → Role

abbrev pub is_user : Role → Bool
is_user user = true
is_user _ = false

abbrev pub is_manager : Role → Bool
is_manager manager = true
is_manager _ = false

abbrev pub is_supervisor : Role → Bool
is_supervisor supervisor = true
is_supervisor _ = false

abbrev pub Preferences : Type 0
Preferences = List (Text × Text)

pub record User : Type 0 where
  pub id : ℕ
  pub name : Text
  pub email : Text
  pub password_hash : Text
  pub role : Role
  pub budget_max : Option ℤ
  pub preferences : Preferences

pub record ClientPreferences : Type 0 where
  pub client_id : ℕ
  pub budget_max : Option ℤ
  pub preferences : Preferences

pub record UpdateUserRequest : Type 0 where
  pub name : Text
  pub email : Text
  pub password : Text
