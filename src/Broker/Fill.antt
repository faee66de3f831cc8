-- ===== src/Broker/Fill.antt =====
-- How the data of a response is made from the backend's.
use dsk_agent.Base.{true, none, some, List, [], ◌∷◌}
use dsk_agent.Base.Text.{Text}
use dsk_agent.Base.Floats.{Floats}
use dsk_agent.Domain.Account.{User, ClientPreferences}
use dsk_agent.Domain.Construction.{Home}
use dsk_agent.Domain.Deal.{Deal}
use dsk_agent.Domain.Offer.{Offer, OfferCalculation}
use dsk_agent.Broker.Replies.{
  DealRpcData, ClientRpcData, ClientUpdatePreferencesRpcData, ApartmentRpcData, AffectedDealRpcData,
  OfferCalculationRpcData, OfferGetRpcData,
}

abbrev pub deal_rpc_data : {F : Type 0} → Deal F → DealRpcData
deal_rpc_data d = record {
  id = d.id;
  client_id = d.user_id;
  apartment_id = d.apartment_id;
  stage = d.status;
}

abbrev pub client_rpc_data : User → ClientRpcData
client_rpc_data u = record {
  id = u.id;
  full_name = u.name;
  budget_max = u.budget_max;
  preferences = u.preferences;
}

abbrev pub apartment_rpc_data : {F : Type 0} → Home F → ApartmentRpcData F
apartment_rpc_data a = record {
  id = a.id;
  building_id = a.building_id;
  number = a.number;
  floor = a.floor;
  rooms = a.rooms;
  area = a.area;
  price = a.price;
  status = a.status;
}

abbrev pub client_update_preferences_rpc_data : ClientPreferences → ClientUpdatePreferencesRpcData
client_update_preferences_rpc_data p = record {
  client_id = p.client_id;
  budget_max = p.budget_max;
  preferences = p.preferences;
  updated = true;
}

-- The loop of `deal.list_by_building`.
unfoldable pub affected_deals : {F : Type 0} → List (Deal F) → List AffectedDealRpcData
affected_deals [] = []
affected_deals (d ∷ l) = record { id = d.id; status = d.status } ∷ affected_deals l

module _ {F : Type 0} (floats : Floats F) where
  -- `strconv.ParseFloat` with its error dropped, for percents, which are never out of range.
  abbrev pub parsed_or_zero : Text → F
  parsed_or_zero text = elim (floats.parse text) [ none ↦ floats.zero | some x ↦ x ]

  -- `calculationRPCData`.
  unfoldable pub calculation_rpc_data : OfferCalculation → OfferCalculationRpcData F
  calculation_rpc_data c = record {
    deal_id = c.deal_id;
    base_price = c.base_price;
    apartment_price = c.apartment_price;
    parking_unit_id = c.parking_unit_id;
    parking_number = c.parking_number;
    parking_price = c.parking_price;
    storage_unit_id = c.storage_unit_id;
    storage_number = c.storage_number;
    storage_price = c.storage_price;
    discount_percent = parsed_or_zero c.discount_percent;
    discount_amount = c.discount_amount;
    final_price = c.final_price;
    max_allowed_discount = parsed_or_zero c.max_allowed_discount;
    requires_approval = c.requires_approval;
  }

  -- `offerGetData`.
  unfoldable pub offer_get_data : Offer → OfferGetRpcData F
  offer_get_data o = record {
    id = o.id;
    deal_id = o.deal_id;
    created_by = o.created_by;
    base_price = o.base_price;
    discount_percent = parsed_or_zero o.discount_percent;
    final_price = o.final_price;
    parking_unit_id = o.parking_unit_id;
    parking_number = o.parking_number;
    parking_price = o.parking_price;
    storage_unit_id = o.storage_unit_id;
    storage_number = o.storage_number;
    storage_price = o.storage_price;
    generated_text = o.generated_text;
    status = o.status;
    approval_required = o.approval_required;
    approved_by = o.approved_by;
    approved_at = o.approved_at;
    created_at = o.created_at;
    updated_at = o.updated_at;
  }
