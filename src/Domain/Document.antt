-- ===== src/Domain/Document.antt =====
-- `OfferDocument` of backend/internal/domain/offer.go. `F` is the type of Go's float64.
use dsk_agent.Base.{ℕ, Option}
use dsk_agent.Base.Int.{ℤ}
use dsk_agent.Base.Text.{Text}
use dsk_agent.Domain.Estate.{FinishingType}
use dsk_agent.Domain.Offer.{Offer}

pub record OfferDocument (F : Type 0) : Type 0 where
  pub offer : Offer
  pub client_name : Text
  pub client_email : Text
  pub manager_name : Text
  pub apartment_id : ℕ
  pub apartment_number : Text
  pub apartment_rooms : ℤ
  pub apartment_floor : ℤ
  pub apartment_area : F
  pub apartment_finishing : FinishingType
  pub complex_name : Text
  pub complex_address : Text
  pub building_id : ℕ
  pub building_address : Text
  pub building_district : Text
  pub readiness_percent : Option ℤ
  pub planned_date : Option ℕ
  pub forecast_date : Option ℕ
  pub delivery_shift_days : Option ℤ
  pub parking_area : Option F
  pub storage_area : Option F
