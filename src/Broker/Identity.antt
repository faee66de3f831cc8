-- ===== src/Broker/Identity.antt =====
-- Every response answers its request, and a request is refused only before it has changed anything.
use dsk_agent.Base.{ℕ, List, ◌≡◌, true, Option, none, some}
use dsk_agent.Base.Text.{Text}
use dsk_agent.Domain.Construction.{Building}
use dsk_agent.Domain.Rpc.{BackendRpcRequest}
use dsk_agent.Db.{World, Store}
use dsk_agent.Broker.Keys
use dsk_agent.Broker.Keys.{RoutingKey, read_key, action_text}
use dsk_agent.Broker.Codec.{
  decode_strict, extract_request_id, DealGetPayload, ClientGetPayload, ApartmentGetPayload,
  DealMessagesGetPayload, ClientUpdatePreferencesPayload, BuildingGetPayload, CompetitorListPayload,
  ConstructionEventsGetPayload, DealListByBuildingPayload, RecommendationCreatePayload,
  OfferCalculatePayload, OfferCreatePayload, OfferRequestApprovalPayload, OfferGetPayload,
}
use dsk_agent.Broker.Replies.{ConstructionEventRpcData}
use dsk_agent.Broker.Interfaces.{Dispatcher, ErpReader}
use dsk_agent.Broker.Answers.{
  Answers, IsPlain, IsCareful, IsResponseTo, is_refusal, refuse-IsCareful, careful,
}
use dsk_agent.Broker.Reads.{
  deal_get_case, client_get_case, apartment_get_case, deal_messages_get_case,
  client_update_preferences_case,
}
use dsk_agent.Broker.Construction.{
  building_get_case, competitor_list_case, construction_events_get_case, deal_list_by_building_case,
  building_found, with_erp,
}
use dsk_agent.Broker.Sales.{
  recommendation_create_case, offer_calculate_case, offer_create_case, offer_request_approval_case,
  offer_get_case,
}
use dsk_agent.Broker.Dispatch.{run_case, for_key, for_request, for_body, dispatch}

module _ {F : Type 0} (d : Dispatcher F) where
  module _ (id : Text) where
    deal_get-IsCareful : (p : Option DealGetPayload) → IsCareful id (deal_get_case d id p)
    unfolding deal_get_case
    deal_get-IsCareful none = refuse-IsCareful id _
    deal_get-IsCareful (some p) = search careful

    client_get-IsCareful : (p : Option ClientGetPayload) → IsCareful id (client_get_case d id p)
    unfolding client_get_case
    client_get-IsCareful none = refuse-IsCareful id _
    client_get-IsCareful (some p) = search careful

    apartment_get-IsCareful :
        (p : Option ApartmentGetPayload) → IsCareful id (apartment_get_case d id p)
    unfolding apartment_get_case
    apartment_get-IsCareful none = refuse-IsCareful id _
    apartment_get-IsCareful (some p) = search careful

    deal_messages_get-IsCareful :
        (p : Option DealMessagesGetPayload) → IsCareful id (deal_messages_get_case d id p)
    unfolding deal_messages_get_case
    deal_messages_get-IsCareful none = refuse-IsCareful id _
    deal_messages_get-IsCareful (some p) = search careful

    client_update_preferences-IsCareful :
        (p : Option ClientUpdatePreferencesPayload)
        → IsCareful id (client_update_preferences_case d id p)
    unfolding client_update_preferences_case
    client_update_preferences-IsCareful none = refuse-IsCareful id _
    client_update_preferences-IsCareful (some p) = search careful

    building_found-IsPlain :
        (n : ℕ) (b : Building F) → Answers (IsPlain id) (building_found d id n b)
    unfolding building_found
    building_found-IsPlain n b = search careful

    building_get-IsCareful :
        (p : Option BuildingGetPayload) → IsCareful id (building_get_case d id p)
    unfolding building_get_case
    building_get-IsCareful none = refuse-IsCareful id _
    building_get-IsCareful (some p) = search (careful, building_found-IsPlain)

    competitor_list-IsCareful :
        (p : Option CompetitorListPayload) → IsCareful id (competitor_list_case d id p)
    unfolding competitor_list_case
    competitor_list-IsCareful none = refuse-IsCareful id _
    competitor_list-IsCareful (some p) = search careful

    with_erp-IsPlain :
        (erp : Option (ErpReader F)) (n : ℕ) (l : List ConstructionEventRpcData)
        → Answers (IsPlain id) (with_erp d id erp n l)
    unfolding with_erp
    with_erp-IsPlain none n l = search careful
    with_erp-IsPlain (some erp) n l = search careful

    construction_events_get-IsCareful :
        (p : Option ConstructionEventsGetPayload)
        → IsCareful id (construction_events_get_case d id p)
    unfolding construction_events_get_case
    construction_events_get-IsCareful none = refuse-IsCareful id _
    construction_events_get-IsCareful (some p) = search (careful, with_erp-IsPlain)

    deal_list_by_building-IsCareful :
        (p : Option DealListByBuildingPayload) → IsCareful id (deal_list_by_building_case d id p)
    unfolding deal_list_by_building_case
    deal_list_by_building-IsCareful none = refuse-IsCareful id _
    deal_list_by_building-IsCareful (some p) = search careful

    recommendation_create-IsCareful :
        (p : Option RecommendationCreatePayload) → IsCareful id (recommendation_create_case d id p)
    unfolding recommendation_create_case
    recommendation_create-IsCareful none = refuse-IsCareful id _
    recommendation_create-IsCareful (some p) = search careful

    offer_calculate-IsCareful :
        (p : Option OfferCalculatePayload) → IsCareful id (offer_calculate_case d id p)
    unfolding offer_calculate_case
    offer_calculate-IsCareful none = refuse-IsCareful id _
    offer_calculate-IsCareful (some p) = search careful

    offer_create-IsCareful :
        (p : Option OfferCreatePayload) → IsCareful id (offer_create_case d id p)
    unfolding offer_create_case
    offer_create-IsCareful none = refuse-IsCareful id _
    offer_create-IsCareful (some p) = search careful

    offer_request_approval-IsCareful :
        (p : Option OfferRequestApprovalPayload) → IsCareful id (offer_request_approval_case d id p)
    unfolding offer_request_approval_case
    offer_request_approval-IsCareful none = refuse-IsCareful id _
    offer_request_approval-IsCareful (some p) = search careful

    offer_get-IsCareful : (p : Option OfferGetPayload) → IsCareful id (offer_get_case d id p)
    unfolding offer_get_case
    offer_get-IsCareful none = refuse-IsCareful id _
    offer_get-IsCareful (some p) = search careful

  run_case-IsCareful : (k : RoutingKey) (id payload : Text) → IsCareful id (run_case d k id payload)
  unfolding run_case
  run_case-IsCareful Keys.deal_get id payload = deal_get-IsCareful id _
  run_case-IsCareful Keys.client_get id payload = client_get-IsCareful id _
  run_case-IsCareful Keys.apartment_get id payload = apartment_get-IsCareful id _
  run_case-IsCareful Keys.deal_messages_get id payload = deal_messages_get-IsCareful id _
  run_case-IsCareful Keys.client_update_preferences id payload =
      client_update_preferences-IsCareful id _
  run_case-IsCareful Keys.building_get id payload = building_get-IsCareful id _
  run_case-IsCareful Keys.competitor_list id payload = competitor_list-IsCareful id _
  run_case-IsCareful Keys.construction_events_get id payload =
      construction_events_get-IsCareful id _
  run_case-IsCareful Keys.deal_list_by_building id payload = deal_list_by_building-IsCareful id _
  run_case-IsCareful Keys.recommendation_create id payload = recommendation_create-IsCareful id _
  run_case-IsCareful Keys.offer_calculate id payload = offer_calculate-IsCareful id _
  run_case-IsCareful Keys.offer_create id payload = offer_create-IsCareful id _
  run_case-IsCareful Keys.offer_request_approval id payload = offer_request_approval-IsCareful id _
  run_case-IsCareful Keys.offer_get id payload = offer_get-IsCareful id _

  for_key-IsCareful :
      (o : Option RoutingKey) (q : BackendRpcRequest) → IsCareful q.request_id (for_key d o q)
  unfolding for_key
  for_key-IsCareful none q = refuse-IsCareful q.request_id _
  for_key-IsCareful (some k) q = search (careful, run_case-IsCareful)

  for_request-IsCareful :
      (routing_key : Text) (q : BackendRpcRequest)
      → IsCareful q.request_id (for_request d routing_key q)
  unfolding for_request
  for_request-IsCareful routing_key q = search (careful, for_key-IsCareful)

  -- The id by which a body is answered: the request's, or what is found of one in a body that is no request.
  abbrev pub answered_id : Text → Option BackendRpcRequest → Text
  answered_id body none = extract_request_id d.json body
  answered_id body (some q) = q.request_id

  for_body-IsCareful :
      (routing_key body : Text) (o : Option BackendRpcRequest)
      → IsCareful (answered_id body o) (for_body d routing_key body o)
  unfolding for_body
  for_body-IsCareful routing_key body none = refuse-IsCareful (extract_request_id d.json body) _
  for_body-IsCareful routing_key body (some q) = for_request-IsCareful routing_key q

  dispatch-IsCareful :
      (routing_key body : Text)
      → IsCareful
          (answered_id body (decode_strict d.json.request body))
          (dispatch d routing_key body)
  unfolding dispatch
  dispatch-IsCareful routing_key body =
      for_body-IsCareful routing_key body (decode_strict d.json.request body)

  module _ (w : World F) (s : Store F) (routing_key body : Text) where
    -- Whatever a delivery holds, and whatever the database does, the dispatcher makes one response, which carries
    -- the id of the request in the body (or of what the body has of one, where it is no request) and
    -- which has either data and the mark of success, or an error and no such mark.
    pub dispatch-IsResponseTo :
        IsResponseTo
          (answered_id body (decode_strict d.json.request body))
          (dispatch d routing_key body w s).0
    dispatch-IsResponseTo = (dispatch-IsCareful routing_key body w s).0

    -- A request that is refused with VALIDATION_ERROR has run no statement and sent no mail: the store is the same.
    pub dispatch-refused :
        is_refusal (dispatch d routing_key body w s).0.error ≡ true
        → (dispatch d routing_key body w s).1 ≡ s
    dispatch-refused h = (dispatch-IsCareful routing_key body w s).1 h
