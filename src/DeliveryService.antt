-- ===== src/DeliveryService.antt =====
-- backend/internal/service/offer_delivery.go: an approved offer goes to the client of its deal.
-- `checksum` is the hexadecimal SHA-256 of a document.
pub mod Outcome
use dsk_agent.Base.{ℕ, true, false, not, Option, none, some, [], ◌++◌}
use dsk_agent.Base.Text.{Text, codes}
use dsk_agent.Base.Strconv.{decimal}
use dsk_agent.Domain.Error.{invalid_offer_state}
use dsk_agent.Domain.Account.{User}
use dsk_agent.Domain.Offer.{Offer, is_approved, OfferDelivery}
use dsk_agent.Db.{Action, Mail, ◌>>=◌, ◌>>◌, pure, throw, refuse_if, send_mail}
use dsk_agent.Repo.Account.{get_user_by_id}
use dsk_agent.Repo.Deal.{get_deal_by_id}
use dsk_agent.Repo.Delivery.{save_document, create_delivery, finish_delivery}

-- The mail of `Send`.
unfoldable pub offer_mail : User → Offer → Text → Mail
offer_mail account offer pdf = record {
  recipient = account.email;
  subject = codes "Коммерческое предложение ДСК";
  body =
      codes "Здравствуйте, "
      ++ account.name
      ++ codes "!\n\nНаправляем утверждённое коммерческое предложение АО СЗ «ДСК».\n\n"
      ++ offer.generated_text;
  attachment = some (codes "dsk-offer-" ++ decimal offer.id ++ codes ".pdf", pdf);
}

module _ {F : Type 0} (checksum : Text → Text) where
  -- `Store`.
  unfoldable pub store : ℕ → Text → Action F (Unit {0})
  store offer_id pdf = save_document offer_id pdf (checksum pdf)

  -- The record of how the mail went.
  abbrev pub finish : ℕ → Option Text → Action F (OfferDelivery × Option Text)
  finish delivery_id none = do done ← finish_delivery delivery_id true []; pure (done, none)
  finish delivery_id (some text) = do
    failed ← finish_delivery delivery_id false text
    pure (failed, some text)

  -- `Send` once the client is known.
  unfoldable pub deliver : Offer → Text → User → Action F (OfferDelivery × Option Text)
  unfolding store offer_mail
  deliver offer pdf account = do
    store offer.id pdf
    delivery ← create_delivery offer.id account.email
    answer ← send_mail (offer_mail account offer pdf)
    finish delivery.id answer

  -- `Send`. Where the mail fails the code returns the failed delivery and the mail's error: the second
  -- component is the text of that error.
  unfoldable pub send : Option Offer → Text → Action F (OfferDelivery × Option Text)
  unfolding deliver
  send none pdf = throw invalid_offer_state
  send (some offer) pdf = do
    refuse_if (not (is_approved offer.status)) invalid_offer_state
    deal ← get_deal_by_id offer.deal_id
    account ← get_user_by_id deal.user_id
    deliver offer pdf account
