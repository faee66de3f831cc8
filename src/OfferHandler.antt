-- ===== src/OfferHandler.antt =====
-- The handlers of backend/internal/handler/offer.go. `build` is `buildOfferPDF` on a document of the
-- database: the bytes, or none for an error of the PDF library. `checksum` is as in DeliveryService.
pub mod Documents
use dsk_agent.Base.{ℕ, Bool, true, false, not, ◌||◌, Option, none, some, List, ◌==◌, if◌then◌else◌}
use dsk_agent.Base.Text.{Text, codes, text_eq, trim_space, is_empty}
use dsk_agent.Domain.Error.{
  Err, offer_forbidden, offer_not_found, deal_not_found, apartment_not_found,
  ancillary_unit_not_found, invalid_discount, invalid_offer_state, invalid_price, invalid_ancillary,
}
use dsk_agent.Domain.Account.{User}
use dsk_agent.Domain.Offer.{Offer, is_approved, OfferSelection, OfferCalculation, OfferDelivery}
use dsk_agent.Domain.Document.{OfferDocument}
use dsk_agent.Db.{pure}
use dsk_agent.Repo.Document.{get_document}
use dsk_agent.OfferService.Rules.{DiscountPolicy}
use dsk_agent.OfferService.Calls as Service
use dsk_agent.DeliveryService as Delivery
use dsk_agent.Http.{
  Refusal, http_error, http_cause, panicked, written, bad_body, Handler, refuse, need, call, reply,
}

-- `CreateOfferRequest`, and `CalculateOfferRequest` with the first two fields left out.
pub record CreateOfferRequest : Type 0 where
  pub request_id : Text
  pub generated_text : Text
  pub deal_id : ℕ
  pub discount_percent : Text
  pub selection : OfferSelection

pub record CalculateOfferRequest : Type 0 where
  pub deal_id : ℕ
  pub discount_percent : Text
  pub selection : OfferSelection

-- The status of `writeOfferError`.
unfoldable pub offer_status : Err → ℕ
offer_status offer_forbidden = 403
offer_status offer_not_found = 404
offer_status deal_not_found = 404
offer_status apartment_not_found = 404
offer_status ancillary_unit_not_found = 404
offer_status invalid_discount = 409
offer_status invalid_offer_state = 409
offer_status invalid_price = 409
offer_status invalid_ancillary = 409
offer_status _ = 500

-- `writeOfferError`.
abbrev pub offer_error : Err → Refusal
offer_error e = http_cause (offer_status e) e

-- `offerID`: a number that is positive.
unfoldable pub offer_id : Option ℕ → Option ℕ
offer_id none = none
offer_id (some id) = if id == 0 then none else some id

abbrev bad_offer_id : Refusal
bad_offer_id = http_error 400 (codes "invalid offer id")

abbrev pub not_rendered : Refusal
not_rendered = http_error 500 (codes "failed to generate PDF")

-- The bytes of a PDF, for an offer.
pub record PdfAnswer : Type 0 where
  pub offer_id : ℕ
  pub document : Text

module _ {F : Type 0} where
  -- `List`.
  unfoldable pub list : Option User → Handler F (List Offer)
  unfolding offer_status
  list u = reply 200 (Service.list_for_actor u) offer_error

  -- `Get`.
  unfoldable pub get : Option User → Option ℕ → Handler F Offer
  unfolding offer_id
  get u raw =
      need (offer_id raw) bad_offer_id λ id. reply 200 (Service.get_for_actor id u) offer_error

  module _ (policy : DiscountPolicy) where
    -- `Calculate`.
    unfoldable pub calculate :
        Option User → Option CalculateOfferRequest → Handler F OfferCalculation
    calculate u body = need body bad_body λ input. need u panicked λ actor.
        reply 200
          (Service.calculate policy input.deal_id actor.id input.discount_percent input.selection)
          offer_error

    -- `Create`.
    unfoldable pub create : Option User → Option CreateOfferRequest → Handler F Offer
    create u body = need body bad_body λ input.
        if is_empty (trim_space input.request_id) || is_empty (trim_space input.generated_text)
        then refuse (http_error 400 (codes "request_id and generated_text are required"))
        else need u panicked λ actor.
          reply 201
            (Service.create policy input.request_id input.deal_id actor.id input.discount_percent
              input.generated_text input.selection)
            offer_error

  -- `RequestApproval`.
  unfoldable pub request_approval : Option User → Option ℕ → Handler F Offer
  unfolding offer_id
  request_approval u raw =
      need (offer_id raw) bad_offer_id
        λ id. need u panicked λ actor. reply 200 (Service.request_approval id actor.id) offer_error

  -- `decide`.
  unfoldable pub decide : Option User → Option ℕ → Bool → Text → Handler F Offer
  unfolding offer_id
  decide u raw approve reason =
      need (offer_id raw) bad_offer_id
        λ id. reply 200 (Service.decide id u approve reason) offer_error

  -- `Approve`.
  unfoldable pub approve : Option User → Option ℕ → Handler F Offer
  unfolding decide
  approve u raw = decide u raw true (codes "")

  -- `Reject`, whose body is the reason.
  unfoldable pub reject : Option User → Option ℕ → Option Text → Handler F Offer
  unfolding decide
  reject u raw body = need body bad_body λ reason. decide u raw false reason

  -- What `Send` writes; `ErrOfferEmailNotConfigured` is told by its text.
  unfoldable pub delivered : OfferDelivery → Option Text → Handler F OfferDelivery
  delivered delivery none = pure (written 200 delivery)
  delivered delivery (some text) =
      if text_eq text (codes "SMTP delivery is not configured")
      then pure (written 503 delivery)
      else refuse (http_error 502 text)

  module _ (build : OfferDocument F → Option Text) where
    -- The document of the offer with the id, from its rows.
    abbrev pub with_document : {B : Type 0} → ℕ → (Text → Handler F B) → Handler F B
    with_document id f =
        call (get_document id) offer_error λ data'. need (build data') not_rendered f

    module _ (checksum : Text → Text) where
      abbrev pub stored : Bool → Offer → Text → Handler F PdfAnswer
      stored false offer pdf = pure (written 200 (record { offer_id = offer.id; document = pdf }))
      stored true offer pdf =
          call (Delivery.store checksum offer.id pdf) (http_cause 500)
            λ done. pure (written 200 (record { offer_id = offer.id; document = pdf }))

      -- `PDF`; `has_delivery` says that the handler has a delivery service.
      unfoldable pub pdf : Bool → Option User → Option ℕ → Handler F PdfAnswer
      unfolding offer_id
      pdf has_delivery u raw = need (offer_id raw) bad_offer_id λ id.
          call (Service.get_for_actor id u) offer_error λ offer.
            if not (is_approved offer.status)
            then refuse (http_error 409 (codes "PDF is available only for an approved offer"))
            else with_document offer.id (stored has_delivery offer)

      -- `Send`.
      unfoldable pub send : Bool → Option User → Option ℕ → Handler F OfferDelivery
      unfolding offer_id delivered
      send false u raw = refuse (http_error 503 (codes "offer delivery is unavailable"))
      send true u raw = need (offer_id raw) bad_offer_id λ id.
          call (Service.get_for_actor id u) offer_error λ offer. with_document offer.id λ document.
            call (Delivery.send checksum (some offer) document) (http_cause 502)
              λ result. delivered result.0 result.1
