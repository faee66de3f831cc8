-- ===== src/Broker/Construction.antt =====
-- The cases of `Dispatch` on buildings, competitors, the events of a construction site and the deals
-- that they affect.
use dsk_agent.Base.{ℕ, Bool, true, Option, none, some, List, [], ◌∷◌, ◌++◌, ◌==◌, if◌then◌else◌}
use dsk_agent.Base.Text.{Text, codes, text_eq, trim_space, is_empty}
use dsk_agent.Base.Floats.{Floats}
use dsk_agent.Domain.Error.{Err, building_not_found, complex_not_found}
use dsk_agent.Domain.Estate.{ConstructionProgress}
use dsk_agent.Domain.Construction.{
  ResidentialComplex, Building, ErpEvent, MaterialStock, ProductionSchedule,
}
use dsk_agent.Domain.Rpc.{backend_rpc_success, backend_rpc_failure}
use dsk_agent.Broker.Codec.{
  BuildingGetPayload, CompetitorListPayload, ConstructionEventsGetPayload,
  DealListByBuildingPayload,
}
use dsk_agent.Broker.Replies.{
  BuildingRpcData, ConstructionEventRpcData, building, competitors, events, deals,
}
use dsk_agent.Broker.Fill.{affected_deals}
use dsk_agent.Broker.Failures.{validation_error, backend_read_failure}
use dsk_agent.Broker.Interfaces.{Dispatcher, ErpReader, Response, Handler, respond, call}

abbrev pub has_no_risk : Option Text → Bool
has_no_risk none = true
has_no_risk (some level) = is_empty (trim_space level)

abbrev pub or_no_text : Option Text → Text
or_no_text none = []
or_no_text (some text) = text

-- The title of an event: the reason of the delay, or the stage.
abbrev pub event_title : ConstructionProgress → Text
event_title p =
    let reason = trim_space p.delay_reason in if is_empty reason then p.stage_name else reason

-- The loop over the progress: stages without a risk are left out.
unfoldable pub progress_events : List ConstructionProgress → List ConstructionEventRpcData
progress_events [] = []
progress_events (p ∷ l) =
    let rest = progress_events l in
    let event : ConstructionEventRpcData = record {
      type = p.stage_name;
      title = event_title p;
      risk_level = or_no_text p.risk_level;
      delay_days = p.delay_days;
      completion_percentage = p.completion_percentage;
    } in
    if has_no_risk p.risk_level then rest else event ∷ rest

-- The loop over the events of the ERP system.
unfoldable pub erp_events : List ErpEvent → List ConstructionEventRpcData
erp_events [] = []
erp_events (e ∷ l) =
    record {
      type = e.kind;
      title = e.title;
      risk_level = e.severity;
      delay_days = e.delay_days;
      completion_percentage = none;
    }
    ∷ erp_events l

abbrev pub warning : Text → Text → Text → ConstructionEventRpcData
warning type title risk_level = record {
  type = type;
  title = title;
  risk_level = risk_level;
  delay_days = none;
  completion_percentage = none;
}

-- The loop over the stocks: those below their minimum.
unfoldable pub stock_events :
    {F : Type 0} → Floats F → List (MaterialStock F) → List ConstructionEventRpcData
stock_events floats [] = []
stock_events floats (m ∷ l) =
    let rest = stock_events floats l in
    let event =
      warning (codes "material") (codes "Запас ниже минимального: " ++ m.material_name)
        (codes "medium") in
    if floats.lt m.quantity m.minimum_quantity then event ∷ rest else rest

-- The loop over the schedules: those that are delayed.
unfoldable pub schedule_events : List ProductionSchedule → List ConstructionEventRpcData
schedule_events [] = []
schedule_events (p ∷ l) =
    let rest = schedule_events l in
    let event =
      warning (codes "production") (codes "Задержка производства: " ++ p.product_name)
        (codes "high") in
    if text_eq p.status (codes "delayed") then event ∷ rest else rest

abbrev pub formatted : (ℕ → Text) → Option ℕ → Option Text
formatted format none = none
formatted format (some date) = some (format date)

abbrev pub building_rpc_data :
    {F : Type 0} → (ℕ → Text) → ℕ → Building F → ResidentialComplex → BuildingRpcData
building_rpc_data format_date id b complex = record {
  id = id;
  name = complex.name;
  district = b.district;
  planned_delivery = formatted format_date b.planned_date;
  forecast_delivery = formatted format_date b.forecast_date;
  readiness_percent = b.readiness_percent;
}

module _ {F : Type 0} (d : Dispatcher F) (request_id : Text) where
  abbrev pub building_failure : Err → Response F
  building_failure e =
      backend_read_failure request_id e (some building_not_found) (codes "BUILDING_NOT_FOUND")
        (codes "Building not found")

  -- An error for which the caller names no sentinel.
  abbrev pub plain_failure : Err → Response F
  plain_failure e = backend_read_failure request_id e none [] []

  abbrev pub building_id_error : Response F
  building_id_error = validation_error request_id (codes "building_id must be a positive integer")

  -- A building with its district, and then its complex.
  unfoldable pub building_found : ℕ → Building F → Handler F
  building_found building_id b =
      if is_empty (trim_space b.district)
      then respond (
          backend_rpc_failure request_id (codes "BUILDING_DATA_INCOMPLETE")
            (codes "Building district is not configured"))
      else call (d.construction.get_residential_complex_by_id b.residential_complex_id)
          (λ e.
            backend_read_failure request_id e (some complex_not_found)
              (codes "BUILDING_DATA_INCOMPLETE") (codes "Residential complex not found"))
          (λ complex. respond (
            backend_rpc_success request_id
              (building (building_rpc_data d.format_date building_id b complex))))

  unfoldable pub building_get_case : Option BuildingGetPayload → Handler F
  unfolding building_found
  building_get_case none = respond building_id_error
  building_get_case (some p) =
      if p.building_id == 0
      then respond building_id_error
      else call (d.construction.get_building_by_id p.building_id) building_failure
          (building_found p.building_id)

  unfoldable pub competitor_list_case : Option CompetitorListPayload → Handler F
  competitor_list_case none = respond (validation_error request_id (codes "district is required"))
  competitor_list_case (some p) =
      if is_empty (trim_space p.district)
      then respond (validation_error request_id (codes "district is required"))
      else call (d.list_by_district (trim_space p.district)) plain_failure
          (λ items. respond (backend_rpc_success request_id (competitors items)))

  abbrev pub events_response : List ConstructionEventRpcData → Handler F
  events_response l = respond (backend_rpc_success request_id (events l))

  -- The events that the ERP system adds to those of the progress.
  unfoldable pub with_erp : Option (ErpReader F) → ℕ → List ConstructionEventRpcData → Handler F
  unfolding erp_events stock_events schedule_events
  with_erp none building_id found = events_response found
  with_erp (some erp) building_id found = call (erp.list_events building_id) plain_failure λ l.
      call (erp.list_material_stocks building_id) plain_failure λ stocks.
        call (erp.list_production_schedules building_id) plain_failure λ schedules.
          events_response
            (((found ++ erp_events l) ++ stock_events d.floats stocks) ++ schedule_events schedules)

  unfoldable pub construction_events_get_case : Option ConstructionEventsGetPayload → Handler F
  unfolding progress_events with_erp
  construction_events_get_case none = respond building_id_error
  construction_events_get_case (some p) =
      if p.building_id == 0
      then respond building_id_error
      else call (d.construction.get_building_by_id p.building_id) building_failure λ b.
        call (d.construction.get_progress_by_building_id p.building_id) plain_failure
          λ progress. with_erp d.erp p.building_id (progress_events progress)

  unfoldable pub deal_list_by_building_case : Option DealListByBuildingPayload → Handler F
  unfolding affected_deals
  deal_list_by_building_case none = respond building_id_error
  deal_list_by_building_case (some p) =
      if p.building_id == 0
      then respond building_id_error
      else call (d.construction.get_building_by_id p.building_id) building_failure λ b.
        call (d.get_deals_by_building_id p.building_id) plain_failure
          λ l. respond (backend_rpc_success request_id (deals (affected_deals l)))
