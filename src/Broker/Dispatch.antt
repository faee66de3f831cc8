-- ===== src/Broker/Dispatch.antt =====
-- `Dispatch`: from the routing key and the body of a delivery to one response.
use dsk_agent.Base.{◌||◌, Option, none, some, if◌then◌else◌}
use dsk_agent.Base.Text.{Text, codes, text_eq, trim_space, is_empty}
use dsk_agent.Domain.Rpc.{BackendRpcRequest}
use dsk_agent.Broker.Keys
use dsk_agent.Broker.Keys.{RoutingKey, read_key, action_text}
use dsk_agent.Broker.Codec.{decode_strict, extract_request_id}
use dsk_agent.Broker.Failures.{validation_error}
use dsk_agent.Broker.Interfaces.{Dispatcher, Handler, respond}
use dsk_agent.Broker.Reads.{
  deal_get_case, client_get_case, apartment_get_case, deal_messages_get_case,
  client_update_preferences_case,
}
use dsk_agent.Broker.Construction.{
  building_get_case, competitor_list_case, construction_events_get_case, deal_list_by_building_case,
}
use dsk_agent.Broker.Sales.{
  recommendation_create_case, offer_calculate_case, offer_create_case, offer_request_approval_case,
  offer_get_case,
}

module _ {F : Type 0} (d : Dispatcher F) where
  -- The switch on the routing key.
  unfoldable pub run_case : RoutingKey → Text → Text → Handler F
  run_case Keys.deal_get id payload = deal_get_case d id (decode_strict d.json.deal_get payload)
  run_case Keys.client_get id payload =
      client_get_case d id (decode_strict d.json.client_get payload)
  run_case Keys.apartment_get id payload =
      apartment_get_case d id (decode_strict d.json.apartment_get payload)
  run_case Keys.deal_messages_get id payload =
      deal_messages_get_case d id (decode_strict d.json.deal_messages_get payload)
  run_case Keys.client_update_preferences id payload =
      client_update_preferences_case d id (decode_strict d.json.client_update_preferences payload)
  run_case Keys.building_get id payload =
      building_get_case d id (decode_strict d.json.building_get payload)
  run_case Keys.competitor_list id payload =
      competitor_list_case d id (decode_strict d.json.competitor_list payload)
  run_case Keys.construction_events_get id payload =
      construction_events_get_case d id (decode_strict d.json.construction_events_get payload)
  run_case Keys.deal_list_by_building id payload =
      deal_list_by_building_case d id (decode_strict d.json.deal_list_by_building payload)
  run_case Keys.recommendation_create id payload =
      recommendation_create_case d id (decode_strict d.json.recommendation_create payload)
  run_case Keys.offer_calculate id payload =
      offer_calculate_case d id (decode_strict d.json.offer_calculate payload)
  run_case Keys.offer_create id payload =
      offer_create_case d id (decode_strict d.json.offer_create payload)
  run_case Keys.offer_request_approval id payload =
      offer_request_approval_case d id (decode_strict d.json.offer_request_approval payload)
  run_case Keys.offer_get id payload = offer_get_case d id (decode_strict d.json.offer_get payload)

  -- The comparison of the request's action with the one of the routing key.
  unfoldable pub for_key : Option RoutingKey → BackendRpcRequest → Handler F
  for_key none request =
      respond (validation_error request.request_id (codes "action does not match routing key"))
  for_key (some k) request =
      if text_eq request.action (action_text k)
      then run_case k request.request_id request.payload
      else respond (validation_error request.request_id (codes "action does not match routing key"))

  unfoldable pub for_request : Text → BackendRpcRequest → Handler F
  unfolding for_key
  for_request routing_key request =
      if is_empty (trim_space request.request_id) || is_empty (trim_space request.action)
      then respond
          (validation_error request.request_id (codes "request_id and action are required"))
      else for_key (read_key routing_key) request

  -- What becomes of a body, once it is decoded.
  unfoldable pub for_body : Text → Text → Option BackendRpcRequest → Handler F
  unfolding for_request
  for_body routing_key body none =
      respond (validation_error (extract_request_id d.json body) (codes "Invalid RPC request"))
  for_body routing_key body (some request) = for_request routing_key request

  -- `Dispatch`.
  unfoldable pub dispatch : Text → Text → Handler F
  unfolding for_body
  dispatch routing_key body = for_body routing_key body (decode_strict d.json.request body)
