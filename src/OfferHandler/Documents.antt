-- ===== src/OfferHandler/Documents.antt =====
-- Who gets the document of an offer (`PDF` and `Send` of backend/internal/handler/offer.go).
use dsk_agent.Base.{
  ℕ, Bool, true, false, not, ◌≡◌, ◌⊎◌, inl, inr, Bool-cases, sym, ap, ◌∙◌, Option, none, some,
  arith, find, ◌==◌,
}
use dsk_agent.Base.Text.{Text, codes, text_eq, text_eq→eq}
use dsk_agent.Domain.Error.{ok}
use dsk_agent.Domain.Account.{User}
use dsk_agent.Domain.Deal.{Deal}
use dsk_agent.Domain.Document.{OfferDocument}
use dsk_agent.Domain.Offer.{Offer, OfferDelivery, is_approved, approved}
use dsk_agent.Db.{World, Store, pure}
use dsk_agent.Repo.Document.{get_document, get_document-offer}
use dsk_agent.Repo.Reads.{first_tables, after_read}
use dsk_agent.OfferService.Calls.{get_for_actor}
use dsk_agent.OfferService.Access.{IsReaderOf, get_for_actor_lem}
use dsk_agent.DeliveryService as Delivery
use dsk_agent.DeliveryService.Outcome.{IsOutcome, send-IsOutcome, store-find}
use dsk_agent.Http.{http_cause, written, Handler}
use dsk_agent.Http.Steps.{after-call, after-need, after-test}
use dsk_agent.OfferHandler.{
  PdfAnswer, pdf, send, offer_id, offer_error, not_rendered, with_document, stored, delivered,
}

positive : (raw : Option ℕ) (id : ℕ) → offer_id raw ≡ some id → raw ≡ some id
unfolding offer_id
positive none id h = absurd (ground (arith, h))
positive (some n) id h = ground arith

approved_of : (o : Offer) → not (is_approved o.status) ≡ false → o.status ≡ approved
approved_of o h = ground arith

module _ {F : Type 0} (build : OfferDocument F → Option Text) (checksum : Text → Text) (w : World F)
    (s : Store F) (u : Option User) (raw : Option ℕ) where
  -- The user reads the offer with the id `raw`, as the first two statements have read it and its deal,
  -- and the offer is approved.
  pub record MayTake (row : Offer) : Type 0 where
    pub account : User
    pub deal : Deal F
    pub known : u ≡ some account
    pub id : ℕ
    pub named : raw ≡ some id
    pub found : find (λ p. p.id == id) (first_tables w s).offers ≡ some row
    pub is_approved : row.status ≡ approved
    pub of_deal :
        find (λ d. d.id == row.deal_id) (first_tables w (after_read w s)).deals ≡ some deal
    pub reads : IsReaderOf account deal

  taken :
      (id : ℕ) (o : Offer) (s1 : Store F)
      → offer_id raw ≡ some id
      → get_for_actor id u w s ≡ (ok o, s1)
      → not (is_approved o.status) ≡ false
      → (row : Offer) × MayTake row × (o.id ≡ row.id)
  taken id o s1 named read fits =
      let (account, row, deal, known, found, is_row, of_deal, reads) =
        get_for_actor_lem w s id u o s1 read in
      let made : MayTake row = record {
        account = account;
        deal = deal;
        known = known;
        id = id;
        named = positive raw id named;
        found = found;
        is_approved = sym (ap (λ x. x.status) is_row) ∙ approved_of o fits;
        of_deal = of_deal;
        reads = reads;
      } in
      (row, made, ap (λ x. x.id) is_row)

  module _ {B : Type 0} {n : ℕ} {b : B} {s' : Store F} where
    after-document :
        (id : ℕ) (f : Text → Handler F B) (s1 : Store F)
        → with_document build id f w s1 ≡ (ok (written n b), s')
        → (data' : OfferDocument F) × (s2 : Store F) × (document : Text) × (get_document id w s1
            ≡ (ok data', s2))
          × (build data' ≡ some document)
          × (f document w s2 ≡ (ok (written n b), s'))
    after-document id f s1 h =
        let (data', s2, got, h1) = after-call w s1 (get_document id) offer_error _ h in
        let (document, built, h2) = after-need w s2 (build data') not_rendered f h1 in
        (data', s2, document, got, built, h2)

  stored_lem :
      (has_delivery : Bool) (o : Offer) (document : Text) (n : ℕ) (a : PdfAnswer) (s2 s' : Store F)
      → stored build checksum has_delivery o document w s2 ≡ (ok (written n a), s')
      → (a.offer_id ≡ o.id)
        × (a.document ≡ document)
        × (has_delivery ≡ true → Delivery.store checksum o.id document w s2 ≡ (ok tt, s'))
  stored_lem false o document n a s2 s' h = (ground (arith, h), ground (arith, h), λ e. cc)
  stored_lem true o document n a s2 s' h =
      let (done, s3, kept, h1) =
        after-call w s2 (Delivery.store checksum o.id document) (http_cause 500) _ h in
      let last : s3 ≡ s' = ground (arith, h1) in
      (ground (arith, h1), ground (arith, h1), λ e. rw (← last) kept)

  -- Where `PDF` writes a document, the user may take the offer, the document is built from what
  -- `GetDocument` reads for that offer, and, where the handler has a delivery service, the last thing done is
  -- to store it, so that the table then holds it for that offer with its checksum.
  pub pdf-MayTake :
      (has_delivery : Bool) (n : ℕ) (a : PdfAnswer) (s' : Store F)
      → pdf build checksum has_delivery u raw w s ≡ (ok (written n a), s')
      → (row : Offer) × MayTake row
        × (a.offer_id ≡ row.id)
        × (data' : OfferDocument F) × (s1 : Store F) × (s2 : Store F) × (get_document row.id w s1
            ≡ (ok data', s2))
        × (data'.offer.id ≡ row.id)
        × (build data' ≡ some a.document)
        × (has_delivery ≡ true
            → (Delivery.store checksum row.id a.document w s2 ≡ (ok tt, s'))
              × (find (λ e. e.0 == row.id) s'.tables.offer_documents
                  ≡ some (row.id, a.document, checksum a.document)))
  unfolding pdf
  pdf-MayTake has_delivery n a s' h =
      let (id, named, h1) = after-need w s (offer_id raw) _ _ h in
      let (o, s1, read, h2) = after-call w s (get_for_actor id u) offer_error _ h1 in
      let (fits, h3) = after-test w s1 (not (is_approved o.status)) _ _ h2 in
      let (row, may, same) = taken id o s1 named read fits in
      let (data', s2, document, got, built, h4) = after-document o.id _ s1 h3 in
      let (of, what, kept) = stored_lem has_delivery o document n a s2 s' h4 in
      (
        row,
        may,
        of ∙ same,
        data',
        s1,
        s2,
        cc (same, got),
        get_document-offer w s1 o.id data' s2 got ∙ same,
        built ∙ ap some (sym what),
        λ e.
            let put : Delivery.store checksum row.id a.document w s2 ≡ (ok tt, s') =
              cc (kept e, same, what) in
            (put, store-find checksum w row.id a.document s2 s' put),
      )

  delivered_lem :
      (r : OfferDelivery × Option Text) (n : ℕ) (d : OfferDelivery) (s3 s' : Store F)
      → IsOutcome checksum w r
      → delivered r.0 r.1 w s3 ≡ (ok (written n d), s')
      → ((n ≡ 200) × IsOutcome checksum w (d, none))
        ⊎ ((n ≡ 503) × IsOutcome checksum w (d, some (codes "SMTP delivery is not configured")))
  unfolding delivered
  delivered_lem (x, none) n d s3 s' outcome h = ground (arith, h, outcome)
  delivered_lem (x, some text) n d s3 s' outcome h =
      let unset : Text = codes "SMTP delivery is not configured" in
      elim (Bool-cases (text_eq text unset)) [
        | inl e ↦
            let same : text ≡ unset = text_eq→eq text unset e in
            let h1 : pure (written 503 x) w s3 ≡ (ok (written n d), s') = rw e at h in
            let is_n : n ≡ 503 = ground (arith, h1) in
            let is_d : x ≡ d = ground (arith, h1) in
            inr (is_n, (cc (is_d, outcome.0), cc (is_d, outcome.1, same)))
        | inr e ↦ absurd (ground (arith, rw e at h))
      ]

  -- Where `Send` writes a delivery, the user may take the offer, and the status is 200 for a delivery
  -- that is marked as sent, and 503 for one that is marked as failed because no SMTP is configured.
  pub send-MayTake :
      (n : ℕ) (d : OfferDelivery) (s' : Store F)
      → send build checksum true u raw w s ≡ (ok (written n d), s')
      → (row : Offer) × MayTake row
        × (((n ≡ 200) × IsOutcome checksum w (d, none))
            ⊎ ((n ≡ 503)
                × IsOutcome checksum w (d, some (codes "SMTP delivery is not configured"))))
  unfolding send
  send-MayTake n d s' h =
      let (id, named, h1) = after-need w s (offer_id raw) _ _ h in
      let (o, s1, read, h2) = after-call w s (get_for_actor id u) offer_error _ h1 in
      let (data', s2, document, got, built, h3) = after-document o.id _ s1 h2 in
      let (r, s3, sent, h4) =
        after-call w s2 (Delivery.send checksum (some o) document) (http_cause 502) _ h3 in
      let (o', same, status, outcome) = send-IsOutcome checksum w s2 (some o) document r s3 sent in
      let fits : not (is_approved o.status) ≡ false = ground (arith, same, status) in
      let (row, may, same_id) = taken id o s1 named read fits in
      (row, may, delivered_lem r n d s3 s' outcome h4)
