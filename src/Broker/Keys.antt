-- ===== src/Broker/Keys.antt =====
-- The routing keys and the actions that requests name.
use dsk_agent.Base.{Option, none, some, List, [], ◌∷◌, if◌then◌else◌, ◌≡◌, arith}
use dsk_agent.Base.Text.{Text, codes, text_eq, text_eq→eq}

pub data RoutingKey : Type 0 where
  deal_get client_get apartment_get deal_messages_get client_update_preferences : RoutingKey
  building_get competitor_list construction_events_get deal_list_by_building : RoutingKey
  recommendation_create offer_calculate offer_create offer_request_approval offer_get : RoutingKey

-- The constants of the routing keys.
unfoldable pub key_text : RoutingKey → Text
key_text deal_get = codes "backend.deal.get"
key_text client_get = codes "backend.client.get"
key_text apartment_get = codes "backend.apartment.get"
key_text deal_messages_get = codes "backend.deal.messages.get"
key_text client_update_preferences = codes "backend.client.update_preferences"
key_text building_get = codes "backend.building.get"
key_text competitor_list = codes "backend.competitor.list"
key_text construction_events_get = codes "backend.construction.events.get"
key_text deal_list_by_building = codes "backend.deal.list_by_building"
key_text recommendation_create = codes "backend.recommendation.create"
key_text offer_calculate = codes "backend.offer.calculate"
key_text offer_create = codes "backend.offer.create"
key_text offer_request_approval = codes "backend.offer.request_approval"
key_text offer_get = codes "backend.offer.get"

-- The queue is bound to these.
abbrev pub supported_backend_routing_keys : List RoutingKey
supported_backend_routing_keys =
    deal_get ∷ client_get ∷ apartment_get ∷ deal_messages_get ∷ client_update_preferences
    ∷ building_get ∷ competitor_list ∷ construction_events_get ∷ deal_list_by_building
    ∷ recommendation_create ∷ offer_calculate ∷ offer_create ∷ offer_request_approval ∷ offer_get
    ∷ []

abbrev pub action_text : RoutingKey → Text
action_text deal_get = codes "deal.get"
action_text client_get = codes "client.get"
action_text apartment_get = codes "apartment.get"
action_text deal_messages_get = codes "deal.messages.get"
action_text client_update_preferences = codes "client.update_preferences"
action_text building_get = codes "building.get"
action_text competitor_list = codes "competitor.list"
action_text construction_events_get = codes "construction.events.get"
action_text deal_list_by_building = codes "deal.list_by_building"
action_text recommendation_create = codes "recommendation.create"
action_text offer_calculate = codes "offer.calculate"
action_text offer_create = codes "offer.create"
action_text offer_request_approval = codes "offer.request_approval"
action_text offer_get = codes "offer.get"

-- The cases of a `switch` on a routing key, in their order.
unfoldable pub matching : List RoutingKey → Text → Option RoutingKey
unfolding key_text
matching [] text = none
matching (k ∷ keys) text =
    let later = matching keys text in if text_eq text (key_text k) then some k else later

unfoldable pub read_key : Text → Option RoutingKey
unfolding matching
read_key text = matching supported_backend_routing_keys text

-- `actionForRoutingKey`.
unfoldable pub action_for_routing_key : Text → Option Text
unfolding read_key
action_for_routing_key text = elim (read_key text) [ none ↦ none | some k ↦ some (action_text k) ]

matching-key :
    (keys : List RoutingKey) (text : Text) (k : RoutingKey)
    → matching keys text ≡ some k
    → text ≡ key_text k
unfolding matching
matching-key [] text k h = cc
matching-key (j ∷ keys) text k h =
    ground (arith, text_eq→eq text (key_text j), matching-key keys text k)

-- A key that is read is written as it was.
pub read_key-key_text : (text : Text) (k : RoutingKey) → read_key text ≡ some k → text ≡ key_text k
unfolding read_key
read_key-key_text text k h = matching-key supported_backend_routing_keys text k h
