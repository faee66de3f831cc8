-- ===== src/Broker/Sales.antt =====
-- The cases of `Dispatch` on recommendations and offers.
use dsk_agent.Base.{Bool, ◌||◌, true, [], Option, none, some, ◌==◌, if◌then◌else◌}
use dsk_agent.Base.Text.{Text, codes, trim_space, is_empty}
use dsk_agent.Domain.Error.{deal_not_found}
use dsk_agent.Domain.Offer.{Offer}
use dsk_agent.Domain.Rpc.{backend_rpc_success}
use dsk_agent.Db.{Action}
use dsk_agent.Broker.Codec.{
  RecommendationCreatePayload, OfferCalculatePayload, OfferCreatePayload,
  OfferRequestApprovalPayload, OfferGetPayload,
}
use dsk_agent.Broker.Replies.{
  OfferStatusRpcData, recommendation, calculation, offer_created, offer_approval, offer,
}
use dsk_agent.Broker.Fill.{calculation_rpc_data, offer_get_data}
use dsk_agent.Broker.Failures.{validation_error, backend_read_failure, offer_failure}
use dsk_agent.Broker.Interfaces.{Dispatcher, Response, Handler, respond, call}

abbrev pub offer_status_data : Offer → OfferStatusRpcData
offer_status_data o = record { offer_id = o.id; status = o.status }

module _ {F : Type 0} (d : Dispatcher F) (request_id : Text) where
  abbrev pub recommendation_error : Response F
  recommendation_error =
      validation_error request_id (codes "deal_id, kind and recommendation are required")

  unfoldable pub recommendation_create_case : Option RecommendationCreatePayload → Handler F
  recommendation_create_case none = respond recommendation_error
  recommendation_create_case (some p) =
      if (p.deal_id == 0) || is_empty (trim_space p.kind) || is_empty (trim_space p.recommendation)
      then respond recommendation_error
      else call (d.get_deal_by_id p.deal_id)
          (λ e.
            backend_read_failure request_id e (some deal_not_found) (codes "DEAL_NOT_FOUND")
              (codes "Deal not found"))
          λ found.
            call
              (d.create_recommendation request_id (record {
                id = 0;
                deal_id = p.deal_id;
                kind = trim_space p.kind;
                recommendation = trim_space p.recommendation;
              }))
              (λ e. backend_read_failure request_id e none [] [])
              λ created. respond (
                backend_rpc_success request_id
                  (recommendation (record { recommendation_id = created.id; created = true })))

  abbrev pub calculate_error : Response F
  calculate_error =
      validation_error request_id (codes "deal_id, requested_by and discount_percent are required")

  unfoldable pub offer_calculate_case : Option OfferCalculatePayload → Handler F
  unfolding calculation_rpc_data offer_failure
  offer_calculate_case none = respond calculate_error
  offer_calculate_case (some p) =
      if (p.deal_id == 0) || (p.requested_by == 0) || is_empty p.discount_percent
      then respond calculate_error
      else call
          (d.offers.calculate p.deal_id p.requested_by p.discount_percent
            (record { parking_unit_id = p.parking_unit_id; storage_unit_id = p.storage_unit_id }))
          (offer_failure request_id)
          λ c.
            respond (backend_rpc_success request_id (calculation (calculation_rpc_data d.floats c)))

  abbrev pub create_error : Response F
  create_error =
      validation_error request_id
        (codes "deal_id, created_by, discount_percent and generated_text are required")

  abbrev pub is_incomplete : OfferCreatePayload → Bool
  is_incomplete p =
      (p.deal_id == 0)
      || (p.created_by == 0)
      || is_empty p.discount_percent
      || is_empty (trim_space p.generated_text)

  -- The call of `offers.Create`, and the response to it.
  abbrev pub offer_creation : OfferCreatePayload → Action F Offer
  offer_creation p =
      d.offers.create request_id p.deal_id p.created_by p.discount_percent p.generated_text
        (record { parking_unit_id = p.parking_unit_id; storage_unit_id = p.storage_unit_id })

  abbrev pub created_response : Offer → Handler F
  created_response o =
      respond (backend_rpc_success request_id (offer_created (offer_status_data o)))

  unfoldable pub offer_create_case : Option OfferCreatePayload → Handler F
  unfolding offer_failure
  offer_create_case none = respond create_error
  offer_create_case (some p) =
      if is_incomplete p
      then respond create_error
      else call (offer_creation p) (offer_failure request_id) created_response

  abbrev pub approval_error : Response F
  approval_error = validation_error request_id (codes "offer_id and requested_by are required")

  unfoldable pub offer_request_approval_case : Option OfferRequestApprovalPayload → Handler F
  unfolding offer_failure
  offer_request_approval_case none = respond approval_error
  offer_request_approval_case (some p) =
      if (p.offer_id == 0) || (p.requested_by == 0)
      then respond approval_error
      else call (d.offers.request_approval p.offer_id p.requested_by) (offer_failure request_id)
          λ o. respond (backend_rpc_success request_id (offer_approval (offer_status_data o)))

  abbrev pub offer_id_error : Response F
  offer_id_error = validation_error request_id (codes "offer_id must be a positive integer")

  unfoldable pub offer_get_case : Option OfferGetPayload → Handler F
  unfolding offer_get_data offer_failure
  offer_get_case none = respond offer_id_error
  offer_get_case (some p) =
      if p.offer_id == 0
      then respond offer_id_error
      else call (d.offers.get p.offer_id) (offer_failure request_id)
          λ o. respond (backend_rpc_success request_id (offer (offer_get_data d.floats o)))
