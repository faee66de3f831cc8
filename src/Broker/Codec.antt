-- ===== src/Broker/Codec.antt =====
-- The payloads of the requests, and their decoding. encoding/json is a parameter: for each type of
-- target a decoder of the first JSON value of a text, which returns the rest, or nothing where the
-- value is malformed, has a field that the target lacks or a member of a wrong type.
use dsk_agent.Base.{ℕ, Bool, true, false, ◌||◌, Option, none, some, [], ◌∷◌, ◌==◌, if◌then◌else◌}
use dsk_agent.Base.Int.{ℤ}
use dsk_agent.Base.Text.{Text}
use dsk_agent.Domain.Account.{Preferences}
use dsk_agent.Domain.Rpc.{BackendRpcRequest}

pub record DealGetPayload : Type 0 where
  pub deal_id : ℕ

pub record ClientGetPayload : Type 0 where
  pub client_id : ℕ

pub record ApartmentGetPayload : Type 0 where
  pub apartment_id : ℕ

-- 0 stands for every limit that is not positive.
pub record DealMessagesGetPayload : Type 0 where
  pub deal_id : ℕ
  pub limit : ℕ

-- A map that is absent or null is `none`.
pub record ClientUpdatePreferencesPayload : Type 0 where
  pub client_id : ℕ
  pub budget_max : Option ℤ
  pub preferences : Option Preferences

pub record BuildingGetPayload : Type 0 where
  pub building_id : ℕ

pub record CompetitorListPayload : Type 0 where
  pub district : Text

pub record ConstructionEventsGetPayload : Type 0 where
  pub building_id : ℕ

pub record DealListByBuildingPayload : Type 0 where
  pub building_id : ℕ

pub record RecommendationCreatePayload : Type 0 where
  pub deal_id : ℕ
  pub kind : Text
  pub recommendation : Text

-- A `json.Number` is its text.
pub record OfferCalculatePayload : Type 0 where
  pub deal_id : ℕ
  pub requested_by : ℕ
  pub discount_percent : Text
  pub parking_unit_id : Option ℕ
  pub storage_unit_id : Option ℕ

pub record OfferCreatePayload : Type 0 where
  pub deal_id : ℕ
  pub created_by : ℕ
  pub discount_percent : Text
  pub generated_text : Text
  pub parking_unit_id : Option ℕ
  pub storage_unit_id : Option ℕ

pub record OfferRequestApprovalPayload : Type 0 where
  pub offer_id : ℕ
  pub requested_by : ℕ

pub record OfferGetPayload : Type 0 where
  pub offer_id : ℕ

abbrev pub Decoder : Type 0 → Type 0
Decoder A = Text → Option (A × Text)

-- `unmarshal_request_id` is `json.Unmarshal` into a struct that has the request's id alone.
pub record Json : Type 0 where
  pub unmarshal_request_id : Text → Option Text
  pub request : Decoder BackendRpcRequest
  pub deal_get : Decoder DealGetPayload
  pub client_get : Decoder ClientGetPayload
  pub apartment_get : Decoder ApartmentGetPayload
  pub deal_messages_get : Decoder DealMessagesGetPayload
  pub client_update_preferences : Decoder ClientUpdatePreferencesPayload
  pub building_get : Decoder BuildingGetPayload
  pub competitor_list : Decoder CompetitorListPayload
  pub construction_events_get : Decoder ConstructionEventsGetPayload
  pub deal_list_by_building : Decoder DealListByBuildingPayload
  pub recommendation_create : Decoder RecommendationCreatePayload
  pub offer_calculate : Decoder OfferCalculatePayload
  pub offer_create : Decoder OfferCreatePayload
  pub offer_request_approval : Decoder OfferRequestApprovalPayload
  pub offer_get : Decoder OfferGetPayload

-- A decoder at the end of its input skips JSON's white space and returns io.EOF.
abbrev pub is_eof : Text → Bool
is_eof [] = true
is_eof (c ∷ s) =
    let rest = is_eof s in if (c == 32) || (c == 9) || (c == 10) || (c == 13) then rest else false

-- `decodeStrict`: one value, with nothing behind it.
unfoldable pub decode_strict : {A : Type 0} → Decoder A → Text → Option A
decode_strict decode body = elim (decode body) [
  | none ↦ none
  | some (value, trailing) ↦ if is_eof trailing then some value else none
]

-- `extractRequestID`.
unfoldable pub extract_request_id : Json → Text → Text
extract_request_id json body = elim (json.unmarshal_request_id body) [ none ↦ [] | some id ↦ id ]
