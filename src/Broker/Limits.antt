-- ===== src/Broker/Limits.antt =====
-- No response has more than a hundred messages of a dialog.
use dsk_agent.Base.{
  ℕ, ◌≤◌, ◌==◌, ◌||◌, ltb, Option, none, some, List, [], length, arith, Bool-cases, inl, inr,
}
use dsk_agent.Base.Text.{Text}
use dsk_agent.Domain.Error.{Err}
use dsk_agent.Domain.Construction.{Building}
use dsk_agent.Domain.Rpc.{BackendRpcRequest, backend_rpc_success}
use dsk_agent.DialogService.{DealDialogMessage}
use dsk_agent.Db.{World, Store, Action}
use dsk_agent.Db.Laws.{Returns}
use dsk_agent.Broker.Keys
use dsk_agent.Broker.Keys.{RoutingKey, read_key}
use dsk_agent.Broker.Codec.{
  decode_strict, DealGetPayload, ClientGetPayload, ApartmentGetPayload, DealMessagesGetPayload,
  ClientUpdatePreferencesPayload, BuildingGetPayload, CompetitorListPayload,
  ConstructionEventsGetPayload, DealListByBuildingPayload, RecommendationCreatePayload,
  OfferCalculatePayload, OfferCreatePayload, OfferRequestApprovalPayload, OfferGetPayload,
}
use dsk_agent.Broker.Replies.{Reply, messages, ConstructionEventRpcData}
use dsk_agent.Broker.Failures.{backend_read_failure, offer_failure}
use dsk_agent.Broker.Interfaces.{Dispatcher, ErpReader, Response, Handler, respond, call}
use dsk_agent.Broker.Answers.{Answers, Answers-if, Answers-call}
use dsk_agent.Broker.Reads.{
  deal_get_case, client_get_case, apartment_get_case, deal_messages_get_case,
  client_update_preferences_case, deal_failure,
}
use dsk_agent.Broker.Construction.{
  building_get_case, competitor_list_case, construction_events_get_case, deal_list_by_building_case,
  building_found, with_erp,
}
use dsk_agent.Broker.Sales.{
  recommendation_create_case, offer_calculate_case, offer_create_case, offer_request_approval_case,
  offer_get_case,
}
use dsk_agent.Broker.Dispatch.{run_case, for_key, for_request, for_body, dispatch}

-- The messages that a response carries.
abbrev pub messages_of : {F : Type 0} → Option (Reply F) → List DealDialogMessage
messages_of (some (messages l)) = l
messages_of _ = []

abbrev pub IsBounded : {F : Type 0} → Response F → Type 0
IsBounded r = length (messages_of r.content) ≤ 100

module _ (F : Type 0) (id : Text) where
  read_failure-IsBounded :
      (e : Err) (target : Option Err) (code message : Text)
      → IsBounded {F = F} (backend_read_failure id e target code message)
  unfolding backend_read_failure
  read_failure-IsBounded e target code message = ground arith

  offer_failure-IsBounded : (e : Err) → IsBounded {F = F} (offer_failure id e)
  unfolding offer_failure
  offer_failure-IsBounded e = ground arith

module _ {F : Type 0} where
  respond-IsBounded : (r : Response F) → IsBounded r → Answers IsBounded (respond r)
  respond-IsBounded r h w s = h

  call-IsBounded :
      {A : Type 0} (m : Action F A) (failure : Err → Response F) (rest : A → Handler F)
      → ((e : Err) → IsBounded (failure e))
      → ((a : A) → Answers IsBounded (rest a))
      → Answers IsBounded (call m failure rest)
  call-IsBounded m failure rest p q =
      Answers-call IsBounded (λ a. Unit {0}) m failure rest (λ w s a s' e. tt) p (λ a x. q a)

none_bounded : 0 ≤ 100
none_bounded = omega arith

ruleset bounded = (
  Answers-if, call-IsBounded, respond-IsBounded, read_failure-IsBounded, offer_failure-IsBounded,
  none_bounded,
)

module _ {F : Type 0} (d : Dispatcher F)
    (reader : (deal_id limit : ℕ) (w : World F)
      → Returns w (d.get_deal_messages deal_id limit) (λ l. length l ≤ limit)) where
  module _ (id : Text) where
    building_found-IsBounded :
        (n : ℕ) (b : Building F) → Answers IsBounded (building_found d id n b)
    unfolding building_found
    building_found-IsBounded n b = search bounded

    with_erp-IsBounded :
        (erp : Option (ErpReader F)) (n : ℕ) (l : List ConstructionEventRpcData)
        → Answers IsBounded (with_erp d id erp n l)
    unfolding with_erp
    with_erp-IsBounded none n l = search bounded
    with_erp-IsBounded (some erp) n l = search bounded

    deal_get-IsBounded : (p : Option DealGetPayload) → Answers IsBounded (deal_get_case d id p)
    unfolding deal_get_case
    deal_get-IsBounded none = search bounded
    deal_get-IsBounded (some p) = search bounded

    client_get-IsBounded :
        (p : Option ClientGetPayload) → Answers IsBounded (client_get_case d id p)
    unfolding client_get_case
    client_get-IsBounded none = search bounded
    client_get-IsBounded (some p) = search bounded

    apartment_get-IsBounded :
        (p : Option ApartmentGetPayload) → Answers IsBounded (apartment_get_case d id p)
    unfolding apartment_get_case
    apartment_get-IsBounded none = search bounded
    apartment_get-IsBounded (some p) = search bounded

    client_update_preferences-IsBounded :
        (p : Option ClientUpdatePreferencesPayload)
        → Answers IsBounded (client_update_preferences_case d id p)
    unfolding client_update_preferences_case
    client_update_preferences-IsBounded none = search bounded
    client_update_preferences-IsBounded (some p) = search bounded

    building_get-IsBounded :
        (p : Option BuildingGetPayload) → Answers IsBounded (building_get_case d id p)
    unfolding building_get_case
    building_get-IsBounded none = search bounded
    building_get-IsBounded (some p) = search (bounded, building_found-IsBounded)

    competitor_list-IsBounded :
        (p : Option CompetitorListPayload) → Answers IsBounded (competitor_list_case d id p)
    unfolding competitor_list_case
    competitor_list-IsBounded none = search bounded
    competitor_list-IsBounded (some p) = search bounded

    construction_events_get-IsBounded :
        (p : Option ConstructionEventsGetPayload)
        → Answers IsBounded (construction_events_get_case d id p)
    unfolding construction_events_get_case
    construction_events_get-IsBounded none = search bounded
    construction_events_get-IsBounded (some p) = search (bounded, with_erp-IsBounded)

    deal_list_by_building-IsBounded :
        (p : Option DealListByBuildingPayload)
        → Answers IsBounded (deal_list_by_building_case d id p)
    unfolding deal_list_by_building_case
    deal_list_by_building-IsBounded none = search bounded
    deal_list_by_building-IsBounded (some p) = search bounded

    recommendation_create-IsBounded :
        (p : Option RecommendationCreatePayload)
        → Answers IsBounded (recommendation_create_case d id p)
    unfolding recommendation_create_case
    recommendation_create-IsBounded none = search bounded
    recommendation_create-IsBounded (some p) = search bounded

    offer_calculate-IsBounded :
        (p : Option OfferCalculatePayload) → Answers IsBounded (offer_calculate_case d id p)
    unfolding offer_calculate_case
    offer_calculate-IsBounded none = search bounded
    offer_calculate-IsBounded (some p) = search bounded

    offer_create-IsBounded :
        (p : Option OfferCreatePayload) → Answers IsBounded (offer_create_case d id p)
    unfolding offer_create_case
    offer_create-IsBounded none = search bounded
    offer_create-IsBounded (some p) = search bounded

    offer_request_approval-IsBounded :
        (p : Option OfferRequestApprovalPayload)
        → Answers IsBounded (offer_request_approval_case d id p)
    unfolding offer_request_approval_case
    offer_request_approval-IsBounded none = search bounded
    offer_request_approval-IsBounded (some p) = search bounded

    offer_get-IsBounded : (p : Option OfferGetPayload) → Answers IsBounded (offer_get_case d id p)
    unfolding offer_get_case
    offer_get-IsBounded none = search bounded
    offer_get-IsBounded (some p) = search bounded

    deal_messages_get-IsBounded :
        (p : Option DealMessagesGetPayload) → Answers IsBounded (deal_messages_get_case d id p)
    unfolding deal_messages_get_case
    deal_messages_get-IsBounded none = search bounded
    deal_messages_get-IsBounded (some p) =
        elim (Bool-cases ((p.deal_id == 0) || (p.limit == 0) || ltb 100 p.limit)) [
          | inl e ↦ rw e (λ w s. none_bounded)
          | inr e ↦ rw e (
              Answers-call IsBounded (λ l. length l ≤ p.limit)
                (d.get_deal_messages p.deal_id p.limit) (deal_failure d id)
                (λ found. respond (backend_rpc_success id (messages found)))
                (reader p.deal_id p.limit) (λ x. read_failure-IsBounded F id x _ _ _)
                (λ l h w s. ground (arith, e, h)))
        ]

  run_case-IsBounded :
      (k : RoutingKey) (id payload : Text) → Answers IsBounded (run_case d k id payload)
  unfolding run_case
  run_case-IsBounded Keys.deal_get id payload = deal_get-IsBounded id _
  run_case-IsBounded Keys.client_get id payload = client_get-IsBounded id _
  run_case-IsBounded Keys.apartment_get id payload = apartment_get-IsBounded id _
  run_case-IsBounded Keys.client_update_preferences id payload =
      client_update_preferences-IsBounded id _
  run_case-IsBounded Keys.building_get id payload = building_get-IsBounded id _
  run_case-IsBounded Keys.competitor_list id payload = competitor_list-IsBounded id _
  run_case-IsBounded Keys.construction_events_get id payload =
      construction_events_get-IsBounded id _
  run_case-IsBounded Keys.deal_list_by_building id payload = deal_list_by_building-IsBounded id _
  run_case-IsBounded Keys.recommendation_create id payload = recommendation_create-IsBounded id _
  run_case-IsBounded Keys.offer_calculate id payload = offer_calculate-IsBounded id _
  run_case-IsBounded Keys.offer_create id payload = offer_create-IsBounded id _
  run_case-IsBounded Keys.offer_request_approval id payload = offer_request_approval-IsBounded id _
  run_case-IsBounded Keys.offer_get id payload = offer_get-IsBounded id _
  run_case-IsBounded Keys.deal_messages_get id payload = deal_messages_get-IsBounded id _

  for_key-IsBounded :
      (o : Option RoutingKey) (q : BackendRpcRequest) → Answers IsBounded (for_key d o q)
  unfolding for_key
  for_key-IsBounded none q = search bounded
  for_key-IsBounded (some k) q = search (bounded, run_case-IsBounded)

  for_request-IsBounded :
      (routing_key : Text) (q : BackendRpcRequest) → Answers IsBounded (for_request d routing_key q)
  unfolding for_request
  for_request-IsBounded routing_key q = search (bounded, for_key-IsBounded)

  for_body-IsBounded :
      (routing_key body : Text) (o : Option BackendRpcRequest)
      → Answers IsBounded (for_body d routing_key body o)
  unfolding for_body
  for_body-IsBounded routing_key body none = search bounded
  for_body-IsBounded routing_key body (some q) = for_request-IsBounded routing_key q

  -- Where the reader of dialogs keeps to the limit that it is given, no response to a delivery carries more than a
  -- hundred messages.
  pub dispatch-bounded :
      (routing_key body : Text) (w : World F) (s : Store F)
      → length (messages_of (dispatch d routing_key body w s).0.content) ≤ 100
  unfolding dispatch
  dispatch-bounded routing_key body w s =
      for_body-IsBounded routing_key body (decode_strict d.json.request body) w s
