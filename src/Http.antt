-- ===== src/Http.antt =====
-- What the handlers of backend/internal/handler share. A handler gets the request's user, what
-- `strconv.Atoi` makes of an id in the URL, and what encoding/json makes of the body, each of them none
-- where there is none, and writes one response.
pub mod Steps
pub mod Answered
use dsk_agent.Base.{
  ℕ, Bool, true, false, ◌&&◌, ◌||◌, Option, none, some, [], ◌∷◌, ◌==◌, if◌then◌else◌,
}
use dsk_agent.Base.Text.{Text, codes}
use dsk_agent.Domain.Error.{
  Err, Result, ok, err, fault, driver, deal_not_found, offer_not_found, apartment_not_found,
  user_not_found, ancillary_unit_not_found, discount_policy_not_found, chat_session_not_found,
  notification_not_found, building_not_found, complex_not_found, reminder_not_found,
  competitor_not_found, progress_not_found,
}
use dsk_agent.Db.{Action, ◌>>=◌, pure, attempt}

-- Why a handler has no value to write: a status with a text of its own, a status with the text of an
-- error, or a panic, of a nil user that is dereferenced or of a failed type assertion.
pub data Refusal : Type 0 where
  http_error : ℕ → Text → Refusal
  http_cause : ℕ → Err → Refusal
  panicked : Refusal

-- A status with the value that is encoded as JSON, or a refusal.
pub data Response (A : Type 0) : Type 0 where
  written : ℕ → A → Response A
  refusal : Refusal → Response A

abbrev pub forbidden : Refusal
forbidden = http_error 403 (codes "forbidden")

abbrev pub unauthorized : Refusal
unauthorized = http_error 401 (codes "unauthorized")

abbrev pub bad_body : Refusal
bad_body = http_error 400 (codes "invalid request body")

abbrev has_prefix : Text → Text → Bool
has_prefix [] s = true
has_prefix (c ∷ p) [] = false
has_prefix (c ∷ p) (d ∷ s) = (c == d) && has_prefix p s

-- `strings.Contains(s, p)`.
unfoldable pub contains : Text → Text → Bool
contains [] p = has_prefix p []
contains (c ∷ s) p = has_prefix p (c ∷ s) || contains s p

-- Whether the text of an error contains "not found".
unfoldable pub says_not_found : Err → Bool
unfolding contains
says_not_found deal_not_found = true
says_not_found offer_not_found = true
says_not_found apartment_not_found = true
says_not_found user_not_found = true
says_not_found ancillary_unit_not_found = true
says_not_found discount_policy_not_found = true
says_not_found chat_session_not_found = true
says_not_found notification_not_found = true
says_not_found building_not_found = true
says_not_found complex_not_found = true
says_not_found reminder_not_found = true
says_not_found competitor_not_found = true
says_not_found progress_not_found = true
says_not_found (fault (driver text)) = contains text (codes "not found")
says_not_found _ = false

-- An id of the URL that is positive.
abbrev pub positive_id : Option ℕ → Option ℕ
positive_id none = none
positive_id (some id) = if id == 0 then none else some id

abbrev pub Handler : Type 0 → Type 0 → Type 0
Handler F A = Action F (Response A)

abbrev pub value_of : {A : Type 0} → Option A → Refusal → Response A
value_of none r = refusal r
value_of (some a) r = written 200 a

module _ {F : Type 0} where
  abbrev pub refuse : {A : Type 0} → Refusal → Handler F A
  refuse r = pure (refusal r)

  -- Goes on with a value that was not refused.
  abbrev pub on_value : {A B : Type 0} → (A → Handler F B) → Response A → Handler F B
  on_value f (written status a) = f a
  on_value f (refusal r) = refuse r

  abbrev pub need : {A B : Type 0} → Option A → Refusal → (A → Handler F B) → Handler F B
  need o r f = on_value f (value_of o r)

  abbrev pub outcome : {A B : Type 0} → (Err → Refusal) → (A → Handler F B) → Result A → Handler F B
  outcome r f (ok a) = f a
  outcome r f (err e) = refuse (r e)

  -- Calls the service; its error is refused as `r` says.
  abbrev pub call : {A B : Type 0} → Action F A → (Err → Refusal) → (A → Handler F B) → Handler F B
  call m r f = attempt m >>= outcome r f

  -- Calls the service and writes its value with the status.
  abbrev pub reply : {A : Type 0} → ℕ → Action F A → (Err → Refusal) → Handler F A
  reply status m r = call m r λ a. pure (written status a)
