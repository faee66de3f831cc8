-- ===== src/Domain/Deal.antt =====
-- backend/internal/domain/deal.go. `F` is the type of Go's float64.
use dsk_agent.Base.{ℕ, Bool, true, false, Option}
use dsk_agent.Base.Text.{Text}

-- `other` is a text that a request can carry and the table cannot.
pub data DealStatus : Type 0 where
  pending contract completed cancelled : DealStatus
  other : Text → DealStatus

abbrev pub is_contract : DealStatus → Bool
is_contract contract = true
is_contract _ = false

abbrev pub is_cancelled : DealStatus → Bool
is_cancelled cancelled = true
is_cancelled _ = false

-- One of the four statuses that the service accepts.
abbrev pub is_known : DealStatus → Bool
is_known (other s) = false
is_known _ = true

-- The three names come from joined tables.
pub record Deal (F : Type 0) : Type 0 where
  pub id : ℕ
  pub user_id : ℕ
  pub employee_id : ℕ
  pub apartment_id : ℕ
  pub chat_session_id : Option ℕ
  pub base_price : F
  pub percent_discount : F
  pub total_price : F
  pub status : DealStatus
  pub created_at : ℕ
  pub updated_at : ℕ
  pub user_name : Option Text
  pub employee_name : Option Text
  pub apartment_number : Option Text

pub record CreateDealRequest (F : Type 0) : Type 0 where
  pub user_id : ℕ
  pub apartment_id : ℕ
  pub chat_session_id : Option ℕ
  pub percent_discount : F

pub record UpdateDealStatusRequest (F : Type 0) : Type 0 where
  pub status : DealStatus
  pub percent_discount : Option F
