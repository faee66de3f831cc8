-- ===== src/Domain/Error.antt =====
-- The error values of the repositories and services, and what a fallible call returns.
use dsk_agent.Base.Text.{Text}

-- What a statement fails with that is no answer of the database's: `context.Canceled`,
-- `context.DeadlineExceeded`, and any other error of the driver.
pub data Fault : Type 0 where
  canceled deadline_exceeded : Fault
  driver : Text → Fault

-- The sentinels of the repositories, then those of the services.
pub data Err : Type 0 where
  deal_not_found offer_not_found apartment_not_found user_not_found : Err
  ancillary_unit_not_found discount_policy_not_found chat_session_not_found : Err
  notification_not_found building_not_found complex_not_found reminder_not_found : Err
  invalid_discount invalid_offer_state offer_forbidden invalid_price invalid_ancillary : Err
  invalid_deal_data deal_forbidden apartment_unavailable discount_approval_required : Err
  invalid_session_data empty_message empty_reason : Err
  email_not_configured invalid_number limits_out_of_order : Err
  invalid_credentials user_exists : Err
  competitor_not_found progress_not_found : Err
  fault : Fault → Err

pub data Result {ℓ} (A : Type ℓ) : Type ℓ where
  ok : A → Result A
  err : Err → Result A
