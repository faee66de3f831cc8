-- ===== src/Broker/Replies.antt =====
-- What the responses carry.
use dsk_agent.Base.{ℕ, Bool, Option, List}
use dsk_agent.Base.Int.{ℤ}
use dsk_agent.Base.Text.{Text}
use dsk_agent.Domain.Account.{Preferences}
use dsk_agent.Domain.Estate.{ApartmentStatus}
use dsk_agent.Domain.Construction.{Competitor}
use dsk_agent.Domain.Deal.{DealStatus}
use dsk_agent.Domain.Offer.{OfferStatus}
use dsk_agent.DialogService.{DealDialogMessage}

pub record DealRpcData : Type 0 where
  pub id : ℕ
  pub client_id : ℕ
  pub apartment_id : ℕ
  pub stage : DealStatus

pub record ClientRpcData : Type 0 where
  pub id : ℕ
  pub full_name : Text
  pub budget_max : Option ℤ
  pub preferences : Preferences

pub record ClientUpdatePreferencesRpcData : Type 0 where
  pub client_id : ℕ
  pub budget_max : Option ℤ
  pub preferences : Preferences
  pub updated : Bool

pub record ApartmentRpcData (F : Type 0) : Type 0 where
  pub id : ℕ
  pub building_id : ℕ
  pub number : Text
  pub floor : ℤ
  pub rooms : ℤ
  pub area : F
  pub price : F
  pub status : ApartmentStatus

pub record BuildingRpcData : Type 0 where
  pub id : ℕ
  pub name : Text
  pub district : Text
  pub planned_delivery : Option Text
  pub forecast_delivery : Option Text
  pub readiness_percent : Option ℤ

pub record ConstructionEventRpcData : Type 0 where
  pub type : Text
  pub title : Text
  pub risk_level : Text
  pub delay_days : Option ℤ
  pub completion_percentage : Option ℤ

pub record AffectedDealRpcData : Type 0 where
  pub id : ℕ
  pub status : DealStatus

pub record RecommendationCreatedRpcData : Type 0 where
  pub recommendation_id : ℕ
  pub created : Bool

pub record OfferCalculationRpcData (F : Type 0) : Type 0 where
  pub deal_id : ℕ
  pub base_price : ℤ
  pub apartment_price : ℤ
  pub parking_unit_id : Option ℕ
  pub parking_number : Option Text
  pub parking_price : ℤ
  pub storage_unit_id : Option ℕ
  pub storage_number : Option Text
  pub storage_price : ℤ
  pub discount_percent : F
  pub discount_amount : ℤ
  pub final_price : ℤ
  pub max_allowed_discount : F
  pub requires_approval : Bool

pub record OfferStatusRpcData : Type 0 where
  pub offer_id : ℕ
  pub status : OfferStatus

pub record OfferGetRpcData (F : Type 0) : Type 0 where
  pub id : ℕ
  pub deal_id : ℕ
  pub created_by : ℕ
  pub base_price : ℤ
  pub discount_percent : F
  pub final_price : ℤ
  pub parking_unit_id : Option ℕ
  pub parking_number : Option Text
  pub parking_price : ℤ
  pub storage_unit_id : Option ℕ
  pub storage_number : Option Text
  pub storage_price : ℤ
  pub generated_text : Text
  pub status : OfferStatus
  pub approval_required : Bool
  pub approved_by : Option ℕ
  pub approved_at : Option ℕ
  pub created_at : ℕ
  pub updated_at : ℕ

-- The types of `data`.
pub data Reply (F : Type 0) : Type 0 where
  deal : DealRpcData → Reply F
  client : ClientRpcData → Reply F
  apartment : ApartmentRpcData F → Reply F
  messages : List DealDialogMessage → Reply F
  preferences : ClientUpdatePreferencesRpcData → Reply F
  building : BuildingRpcData → Reply F
  competitors : List (Competitor F) → Reply F
  events : List ConstructionEventRpcData → Reply F
  deals : List AffectedDealRpcData → Reply F
  recommendation : RecommendationCreatedRpcData → Reply F
  calculation : OfferCalculationRpcData F → Reply F
  offer_created : OfferStatusRpcData → Reply F
  offer_approval : OfferStatusRpcData → Reply F
  offer : OfferGetRpcData F → Reply F
