-- ===== src/Tests/Calls.antt =====
-- The calls of agents through the message broker, and those of agents.
use dsk_agent.Base.{
  ℕ, ◌+◌, ◌≤◌, ◌≡◌, ◌↔◌, refl, true, false, Bool, Option, none, some, List, [], ◌∷◌, ◌++◌, map, All,
  length, is_some,
}
use dsk_agent.Base.Text.{Text, codes}
use dsk_agent.Base.Int.{pos}
use dsk_agent.Domain.Rpc.{BackendRpcRequest}
use dsk_agent.Db.{Store, Tables}
use dsk_agent.Broker.Keys
use dsk_agent.Broker.Keys.{key_text, action_text, RoutingKey, action_for_routing_key}
use dsk_agent.Broker.Codec.{Json, Decoder, decode_strict, OfferCreatePayload}
use dsk_agent.Broker.Interfaces.{Dispatcher, Response}
use dsk_agent.Broker.Dispatch.{dispatch}
use dsk_agent.Broker.Backend.{backend}
use dsk_agent.Broker.Consumer.{Delivery, handle_delivery, consume, delivered, done}
use dsk_agent.Broker.Answers.{IsResponseTo}
use dsk_agent.Broker.Identity.{dispatch-IsResponseTo, dispatch-refused}
use dsk_agent.Broker.Settled.{IsHandled, handle_delivery-IsHandled, consume-arrived, settlements}
use dsk_agent.Broker.Authority.{offer_create-authorized, IsComplete, IsAllowed}
use dsk_agent.Broker.Setup.{action_for_routing_key_lem}
use dsk_agent.Tests.Data.{state, quiet_world, floats, policy}

abbrev no_value : {A : Type 0} → Decoder A
no_value text = none

abbrev creation : OfferCreatePayload
creation = record {
  deal_id = 30;
  created_by = 2;
  discount_percent = codes "3";
  generated_text = codes "t";
  parking_unit_id = none;
  storage_unit_id = none;
}

-- Reads every body as a request for an offer, with the body as its id.
abbrev json : Json
json = record {
  unmarshal_request_id = λ body. some body;
  request = λ body.
      some (
        record { request_id = body; action = codes "offer.create"; payload = codes "p" },
        codes " ",
      );
  deal_get = no_value;
  client_get = no_value;
  apartment_get = no_value;
  deal_messages_get = λ payload. some (record { deal_id = 30; limit = 5 }, []);
  client_update_preferences = no_value;
  building_get = no_value;
  competitor_list = no_value;
  construction_events_get = no_value;
  deal_list_by_building = no_value;
  recommendation_create = no_value;
  offer_calculate = no_value;
  offer_create = λ payload. some (creation, []);
  offer_request_approval = no_value;
  offer_get = no_value;
}

abbrev dispatcher : Dispatcher ℕ
dispatcher = backend floats policy json (λ date. [])

abbrev encode : Response ℕ → Option Text
encode r = some r.request_id

abbrev delivery : Delivery
delivery = record {
  routing_key = codes "backend.offer.create";
  reply_to = codes "q";
  correlation_id = codes "c";
  body = codes "r9";
}

handle_delivery-IsHandled_example :
    IsHandled dispatcher encode delivery
      (dispatch dispatcher (codes "backend.offer.create") (codes "r9") quiet_world state).0
      (handle_delivery dispatcher encode delivery true quiet_world state).0
handle_delivery-IsHandled_example =
    handle_delivery-IsHandled dispatcher encode delivery true quiet_world state

consume-arrived_example :
    let handled =
      (consume dispatcher encode
        (delivered delivery true ∷ delivered delivery false ∷ done ∷ [])
        quiet_world
        state).0 in
    (map (λ h. h.0) handled ≡ delivery ∷ delivery ∷ []) × All (λ h. settlements h.1 ≡ 1) handled
consume-arrived_example =
    consume-arrived dispatcher encode
      (delivered delivery true ∷ delivered delivery false ∷ done ∷ []) quiet_world state

dispatch-IsResponseTo_example :
    IsResponseTo
      (codes "r9")
      (dispatch dispatcher (codes "backend.offer.create") (codes "r9") quiet_world state).0
unfolding decode_strict
dispatch-IsResponseTo_example =
    dispatch-IsResponseTo dispatcher quiet_world state (codes "backend.offer.create") (codes "r9")

dispatch-refused_example :
    (dispatch dispatcher (codes "backend.offer.get") (codes "r9") quiet_world state).1 ≡ state
unfolding dispatch decode_strict dsk_agent.Base.Text.trim_space Keys.read_key
dispatch-refused_example =
    dispatch-refused dispatcher quiet_world state (codes "backend.offer.get") (codes "r9") refl

action_for_routing_key_lem_example :
    (action_for_routing_key (codes "backend.deal.get") ≡ some (codes "deal.get")) ↔ (
      (k : RoutingKey) × (codes "deal.get" ≡ action_text k)
      × (codes "backend.deal.get" ≡ codes "backend." ++ codes "deal.get"))
action_for_routing_key_lem_example =
    action_for_routing_key_lem (codes "backend.deal.get") (codes "deal.get")

offer_create-authorized_example :
    (q : BackendRpcRequest) × (p : OfferCreatePayload) × (decode_strict json.request (codes "r9")
      ≡ some q)
    × (q.action ≡ action_text Keys.offer_create)
    × (decode_strict json.offer_create q.payload ≡ some p)
    × IsComplete p
    × IsAllowed quiet_world state p
unfolding dispatch decode_strict dsk_agent.Base.Text.trim_space Keys.read_key
    dsk_agent.Broker.Dispatch.run_case dsk_agent.Broker.Sales.offer_create_case
    dsk_agent.OfferService.Calls.create dsk_agent.OfferService.Calls.calculate
    dsk_agent.Discount.percent_string_to_basis_points dsk_agent.Base.Strconv.split
    dsk_agent.Base.Strconv.parse_int dsk_agent.Base.Int.wrap
    dsk_agent.OfferService.Calls.authorize_deal dsk_agent.Repo.Account.get_user_by_id
    dsk_agent.Db.exec dsk_agent.Repo.Deal.get_deal_by_id dsk_agent.OfferService.Calls.calculate_for
    dsk_agent.OfferService.Calls.max_discount dsk_agent.Base.Sort.sort
    dsk_agent.Base.Strconv.format_int dsk_agent.Discount.format_basis_points
    dsk_agent.Discount.rounded_ratio dsk_agent.Db.run_statement
    dsk_agent.Money.decimal_money_to_integer dsk_agent.OfferService.Calls.ancillary_selection
    dsk_agent.OfferService.Rules.add_units dsk_agent.OfferService.Rules.authorize_offer_actor
    dsk_agent.OfferService.Rules.calculation dsk_agent.Repo.Offer.create
    dsk_agent.Repo.Offer.get_apartment_offer_data dsk_agent.Repo.Offer.get_by_id
    dsk_agent.Repo.Offer.get_by_request_id dsk_agent.Repo.Offer.insert_offer
    dsk_agent.Repo.Policy.get_active_max
offer_create-authorized_example =
    offer_create-authorized quiet_world state floats policy json (λ date. []) (codes "r9") refl
