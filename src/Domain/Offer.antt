-- ===== src/Domain/Offer.antt =====
-- backend/internal/domain/offer.go and offer_delivery.go. Money is an int64 number of roubles.
use dsk_agent.Base.{ℕ, Bool, true, false, Option}
use dsk_agent.Base.Int.{ℤ}
use dsk_agent.Base.Text.{Text}

pub data OfferStatus : Type 0 where
  draft pending_approval approved rejected : OfferStatus

abbrev pub is_draft : OfferStatus → Bool
is_draft draft = true
is_draft _ = false

abbrev pub is_pending_approval : OfferStatus → Bool
is_pending_approval pending_approval = true
is_pending_approval _ = false

abbrev pub is_approved : OfferStatus → Bool
is_approved approved = true
is_approved _ = false

-- `request_id` is a column of the table that the Go struct does not carry.
pub record Offer : Type 0 where
  pub id : ℕ
  pub deal_id : ℕ
  pub version : ℕ
  pub created_by : ℕ
  pub base_price : ℤ
  pub discount_percent : Text
  pub final_price : ℤ
  pub parking_unit_id : Option ℕ
  pub parking_number : Option Text
  pub parking_price : ℤ
  pub storage_unit_id : Option ℕ
  pub storage_number : Option Text
  pub storage_price : ℤ
  pub generated_text : Text
  pub status : OfferStatus
  pub approval_required : Bool
  pub approved_by : Option ℕ
  pub approved_at : Option ℕ
  pub rejected_by : Option ℕ
  pub rejected_at : Option ℕ
  pub rejection_reason : Option Text
  pub created_at : ℕ
  pub updated_at : ℕ
  pub request_id : Text

pub record OfferSelection : Type 0 where
  pub parking_unit_id : Option ℕ
  pub storage_unit_id : Option ℕ

pub record OfferCalculation : Type 0 where
  pub deal_id : ℕ
  pub base_price : ℤ
  pub apartment_price : ℤ
  pub parking_unit_id : Option ℕ
  pub parking_number : Option Text
  pub parking_price : ℤ
  pub storage_unit_id : Option ℕ
  pub storage_number : Option Text
  pub storage_price : ℤ
  pub discount_percent : Text
  pub discount_amount : ℤ
  pub final_price : ℤ
  pub max_allowed_discount : Text
  pub requires_approval : Bool

pub data DeliveryStatus : Type 0 where
  pending sent failed : DeliveryStatus

-- The channel is always `email`.
pub record OfferDelivery : Type 0 where
  pub id : ℕ
  pub offer_id : ℕ
  pub recipient : Text
  pub status : DeliveryStatus
  pub error_message : Option Text
  pub created_at : ℕ
  pub sent_at : Option ℕ
