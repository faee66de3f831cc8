-- ===== src/Domain/Estate.antt =====
-- backend/internal/domain/construction.go, ancillary_unit.go and discount_policy.go, as far as sales
-- and notifications read them.
use dsk_agent.Base.{ℕ, Bool, true, false, Option}
use dsk_agent.Base.Int.{ℤ}
use dsk_agent.Base.Text.{Text}
use dsk_agent.Domain.Account.{Role}

pub data ApartmentStatus : Type 0 where
  free booked sold : ApartmentStatus

abbrev pub is_free : ApartmentStatus → Bool
is_free free = true
is_free _ = false

pub data FinishingType : Type 0 where
  rough white_box turnkey : FinishingType

-- A row of `apartments`; `area` and `price` are the texts of DECIMAL columns.
pub record Apartment : Type 0 where
  pub id : ℕ
  pub building_id : ℕ
  pub number : Text
  pub rooms : ℤ
  pub floor : ℤ
  pub area : Text
  pub price : Text
  pub type_finishing : FinishingType
  pub status : ApartmentStatus

pub data AncillaryKind : Type 0 where
  parking storage : AncillaryKind

abbrev pub same_kind : AncillaryKind → AncillaryKind → Bool
same_kind parking parking = true
same_kind storage storage = true
same_kind _ _ = false

-- A row of `ancillary_units`; `area` is the text of a DECIMAL column.
pub record AncillaryUnit : Type 0 where
  pub id : ℕ
  pub building_id : ℕ
  pub kind : AncillaryKind
  pub number : Text
  pub area : Option Text
  pub price : ℤ
  pub status : ApartmentStatus

pub data ProgressStatus : Type 0 where
  not_started in_progress completed delayed : ProgressStatus

-- The stage is its name, as it is printed in messages.
pub record ConstructionProgress : Type 0 where
  pub id : ℕ
  pub building_id : ℕ
  pub stage_name : Text
  pub planned_start_date : Option ℕ
  pub actual_start_date : Option ℕ
  pub planned_end_date : Option ℕ
  pub actual_end_date : Option ℕ
  pub status : ProgressStatus
  pub completion_percentage : Option ℤ
  pub delay_reason : Text
  pub risk_level : Option Text
  pub delay_days : Option ℤ

pub record DiscountPolicyRecord : Type 0 where
  pub id : ℕ
  pub building_id : ℕ
  pub role : Role
  pub max_discount_percent : Text
  pub version : ℕ
  pub valid_from : ℕ
  pub valid_to : Option ℕ
  pub created_by : ℕ
  pub created_at : ℕ
