-- ===== src/DeliveryService/Outcome.antt =====
-- What becomes of the delivery of an offer (`Send` in backend/internal/service/offer_delivery.go).
use mathlib.Core.Path.{subst}
use dsk_agent.Base.{
  false, if◌then◌else◌, Option-cases, inl, inr, [], not, ◌≡◌, refl, Option, none, some, true, arith,
  find, ◌==◌, ==_refl, ◌∙◌, sym, Bool, List, ℕ,
}
use dsk_agent.Base.Text.{Text}
use dsk_agent.Domain.Error.{ok, invalid_offer_state}
use dsk_agent.Domain.Offer.{Offer, OfferDelivery, approved, is_approved, sent, failed}
use dsk_agent.Db.{World, Store, Action, ◌>>=◌, pure, send_mail, exec, run_statement}
use dsk_agent.Db.Laws.{bind-ok, pure-ok, after-refuse}
use dsk_agent.Repo.Reads.{after_read, after-deal, after-user}
use dsk_agent.Repo.Account.{get_user_by_id}
use dsk_agent.Repo.Deal.{get_deal_by_id}
use dsk_agent.Repo.Delivery.{create_delivery, finish_delivery, finished, save_row, save_document}
use dsk_agent.Base.Rows.{find-append, find_updated, find_test}
use dsk_agent.Domain.Deal.{Deal}
use dsk_agent.DeliveryService.{send, deliver, store, offer_mail, finish}

save_row-find :
    (id : ℕ) (content sum : Text) (rows : List (ℕ × Text × Text))
    → find (λ e. e.0 == id) (save_row id content sum rows) ≡ some (id, content, sum)
save_row-find id content sum rows = elim (Option-cases (find (λ e. e.0 == id) rows)) [
  | inl e ↦
      let test : ℕ × Text × Text → Bool = λ e. e.0 == id in
      rw (e, save_row) (find-append test rows (id, content, sum) e (==_refl id))
  | inr (x, e) ↦
      let test : ℕ × Text × Text → Bool = λ e. e.0 == id in
      rw (e, save_row)
        (find_updated test test (λ e. (id, content, sum)) (λ y h. ==_refl id ∙ sym h) rows e
          (find_test test rows e))
]

module _ {F : Type 0} (checksum : Text → Text) (w : World F) where
  -- A document that has been stored is the one that the table holds for its offer, with its checksum.
  pub store-find :
      (id : ℕ) (pdf : Text) (s s' : Store F)
      → store checksum id pdf w s ≡ (ok tt, s')
      → find (λ e. e.0 == id) s'.tables.offer_documents ≡ some (id, pdf, checksum pdf)
  unfolding store save_document exec run_statement
  store-find id pdf s s' h =
      let rows = ((w.slot s.tick).others s.tables).offer_documents in
      let saved : s'.tables.offer_documents ≡ save_row id pdf (checksum pdf) rows =
        ground (arith, h) in
      rw saved (save_row-find id pdf (checksum pdf) rows)

  -- What is returned about a mail that went out, and about one that did not.
  abbrev pub IsOutcome : OfferDelivery × Option Text → Type 0
  IsOutcome (d, none) = (d.status ≡ sent) × (d.error_message ≡ none)
  IsOutcome (d, some text) = (d.status ≡ failed) × (d.error_message ≡ some text)

  finish_delivery-ok :
      (id : ℕ) (is_sent : Bool) (text : Text) (d : OfferDelivery) (s s' : Store F)
      → finish_delivery id is_sent text w s ≡ (ok d, s')
      → (d.status ≡ (if is_sent then sent else failed))
        × (d.error_message ≡ (if is_sent then none else some text))
  unfolding finish_delivery exec run_statement finished
  finish_delivery-ok id is_sent text d s s' h =
      elim (Option-cases
        (find (λ d. d.id == id) ((w.slot s.tick).others s.tables).offer_deliveries)) [
          | inl e ↦ absurd (ground (arith, e, h))
          | inr (x, e) ↦ ground (arith, e, h)
        ]

  finish-IsOutcome :
      (id : ℕ) (answer : Option Text) (r : OfferDelivery × Option Text) (s s' : Store F)
      → finish checksum id answer w s ≡ (ok r, s')
      → IsOutcome r
  finish-IsOutcome id none r s s' h =
      let (d, s1, e, h1) = bind-ok (finish_delivery id true []) (λ d. pure (d, none)) w s r s' h in
      subst IsOutcome (pure-ok w s1 (d, none) h1).0 (finish_delivery-ok id true [] d s s1 e)
  finish-IsOutcome id (some text) r s s' h =
      let (d, s1, e, h1) =
        bind-ok (finish_delivery id false text) (λ d. pure (d, some text)) w s r s' h in
      subst IsOutcome (pure-ok w s1 (d, some text) h1).0 (finish_delivery-ok id false text d s s1 e)

  -- Where `Send` returns a delivery the offer is approved, and the delivery is marked as sent, or as failed
  -- with the text of the mail's error where the mail failed.
  pub send-IsOutcome :
      (s : Store F) (offer : Option Offer) (pdf : Text) (r : OfferDelivery × Option Text)
      (s' : Store F)
      → send checksum offer pdf w s ≡ (ok r, s')
      → (o : Offer) × (offer ≡ some o) × (o.status ≡ approved) × IsOutcome r
  unfolding send deliver
  send-IsOutcome s none pdf r s' h = absurd (ground (arith, h))
  send-IsOutcome s (some o) pdf r s' h =
      let told : Deal F → Action F (OfferDelivery × Option Text) =
        λ deal. get_user_by_id deal.user_id >>= deliver checksum o pdf in
      let (fits, h1) =
        after-refuse w s (not (is_approved o.status)) invalid_offer_state
          (λ x. get_deal_by_id o.deal_id >>= told) h in
      let (raw, found, h2) = after-deal w s o.deal_id told h1 in
      let (account, found_user, h3) =
        after-user w (after_read w s) raw.user_id (deliver checksum o pdf) h2 in
      let mailed : OfferDelivery → Action F (OfferDelivery × Option Text) =
        λ d. send_mail (offer_mail account o pdf) >>= finish checksum d.id in
      let (x, s1, e1, h4) =
        bind-ok (store checksum o.id pdf) (λ x. create_delivery o.id account.email >>= mailed) w
          (after_read w (after_read w s)) r s' h3 in
      let (d, s2, e2, h5) = bind-ok (create_delivery o.id account.email) mailed w s1 r s' h4 in
      let (answer, s3, e3, h6) =
        bind-ok (send_mail (offer_mail account o pdf)) (finish checksum d.id) w s2 r s' h5 in
      (o, refl, ground (arith, fits), finish-IsOutcome d.id answer r s3 s' h6)
