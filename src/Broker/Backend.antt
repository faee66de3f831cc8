-- ===== src/Broker/Backend.antt =====
-- The dispatcher of cmd/staff_server/main.go: the interfaces filled with the services and repositories.
use dsk_agent.Base.{ℕ, some}
use dsk_agent.Base.Text.{Text}
use dsk_agent.Base.Floats.{Floats}
use dsk_agent.OfferService.Rules.{DiscountPolicy}
use dsk_agent.OfferService.Calls
use dsk_agent.DealService
use dsk_agent.UserService
use dsk_agent.ConstructionService
use dsk_agent.DialogService
use dsk_agent.Repo.Competitor
use dsk_agent.Repo.Recommendation
use dsk_agent.Repo.Erp
use dsk_agent.Broker.Codec.{Json}
use dsk_agent.Broker.Interfaces.{Dispatcher, OfferWorkflow, ConstructionReader, ErpReader}

module _ {F : Type 0} (floats : Floats F) (policy : DiscountPolicy) where
  abbrev pub offer_workflow : OfferWorkflow F
  offer_workflow = record {
    calculate = Calls.calculate policy;
    create = Calls.create policy;
    request_approval = Calls.request_approval;
    get = Calls.get;
  }

  abbrev pub construction_reader : ConstructionReader F
  construction_reader = record {
    get_building_by_id = ConstructionService.get_building_by_id floats.zero;
    get_residential_complex_by_id = ConstructionService.get_residential_complex_by_id;
    get_progress_by_building_id = ConstructionService.get_progress_by_building_id;
    get_apartment_by_id = ConstructionService.get_apartment_by_id;
  }

  abbrev pub erp_reader : ErpReader F
  erp_reader = record {
    list_events = Erp.list_events;
    list_material_stocks = Erp.list_material_stocks;
    list_production_schedules = Erp.list_production_schedules;
  }

  abbrev pub backend : Json → (ℕ → Text) → Dispatcher F
  backend json format_date = record {
    json = json;
    floats = floats;
    format_date = format_date;
    get_deal_by_id = DealService.get_deal_by_id;
    get_user = UserService.get_user;
    get_deal_messages = DialogService.get_deal_messages;
    update_client_preferences = UserService.update_client_preferences;
    construction = construction_reader;
    get_deals_by_building_id = DealService.get_deals_by_building_id;
    list_by_district = Competitor.list_by_district;
    create_recommendation = Recommendation.create;
    offers = offer_workflow;
    erp = some erp_reader;
  }
