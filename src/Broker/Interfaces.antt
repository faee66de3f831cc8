-- ===== src/Broker/Interfaces.antt =====
-- What the dispatcher needs of the rest of the backend: its interfaces, one field for each method. The
-- parts that print dates and decode JSON are fields too.
use dsk_agent.Base.{ℕ, Option, List}
use dsk_agent.Base.Int.{ℤ}
use dsk_agent.Base.Text.{Text}
use dsk_agent.Base.Floats.{Floats}
use dsk_agent.Domain.Error.{Err, Result, ok, err}
use dsk_agent.Domain.Account.{User, Preferences, ClientPreferences}
use dsk_agent.Domain.Estate.{ConstructionProgress}
use dsk_agent.Domain.Construction.{
  ResidentialComplex, Building, Home, Competitor, ErpEvent, MaterialStock, ProductionSchedule,
}
use dsk_agent.Domain.Deal.{Deal}
use dsk_agent.Domain.Offer.{Offer, OfferCalculation, OfferSelection}
use dsk_agent.Domain.Rpc.{BackendRpcResponse, Recommendation}
use dsk_agent.DialogService.{DealDialogMessage}
use dsk_agent.Db.{World, Store, Action}
use dsk_agent.Broker.Codec.{Json}
use dsk_agent.Broker.Replies.{Reply}

-- `erpReader`.
pub record ErpReader (F : Type 0) : Type 0 where
  pub list_events : ℕ → Action F (List ErpEvent)
  pub list_material_stocks : ℕ → Action F (List (MaterialStock F))
  pub list_production_schedules : ℕ → Action F (List ProductionSchedule)

-- `constructionReader` and `apartmentReader`.
pub record ConstructionReader (F : Type 0) : Type 0 where
  pub get_building_by_id : ℕ → Action F (Building F)
  pub get_residential_complex_by_id : ℕ → Action F ResidentialComplex
  pub get_progress_by_building_id : ℕ → Action F (List ConstructionProgress)
  pub get_apartment_by_id : ℕ → Action F (Home F)

-- `offerWorkflow`.
pub record OfferWorkflow (F : Type 0) : Type 0 where
  pub calculate : ℕ → ℕ → Text → OfferSelection → Action F OfferCalculation
  pub create : Text → ℕ → ℕ → Text → Text → OfferSelection → Action F Offer
  pub request_approval : ℕ → ℕ → Action F Offer
  pub get : ℕ → Action F Offer

-- `BackendRPCDispatcher`, the methods of its other interfaces in line. `format_date` prints a time
-- as 2006-01-02;
pub record Dispatcher (F : Type 0) : Type 0 where
  pub json : Json
  pub floats : Floats F
  pub format_date : ℕ → Text
  pub get_deal_by_id : ℕ → Action F (Deal F)
  pub get_user : ℕ → Action F User
  pub get_deal_messages : ℕ → ℕ → Action F (List DealDialogMessage)
  pub update_client_preferences : ℕ → Option ℤ → Preferences → Action F ClientPreferences
  pub construction : ConstructionReader F
  pub get_deals_by_building_id : ℕ → Action F (List (Deal F))
  pub list_by_district : Text → Action F (List (Competitor F))
  pub create_recommendation : Text → Recommendation → Action F Recommendation
  pub offers : OfferWorkflow F
  pub erp : Option (ErpReader F)

abbrev pub Response : Type 0 → Type 0
Response F = BackendRpcResponse (Reply F)

-- A case of the switch: it always ends with a response.
abbrev pub Handler : Type 0 → Type 0
Handler F = World F → Store F → Response F × Store F

module _ {F : Type 0} where
  abbrev pub respond : Response F → Handler F
  respond r w s = (r, s)

  -- `if err != nil { return failure(err) }`, and the rest.
  abbrev pub after :
      {A : Type 0}
      → (Err → Response F)
      → (A → Handler F)
      → World F
      → Result A × Store F
      → Response F × Store F
  after failure rest w (ok a, s) = rest a w s
  after failure rest w (err e, s) = (failure e, s)

  -- `x, err := m`, and what follows.
  abbrev pub call : {A : Type 0} → Action F A → (Err → Response F) → (A → Handler F) → Handler F
  call m failure rest w s = after failure rest w (m w s)
