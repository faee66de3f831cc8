-- ===== src/Repo/Delivery.antt =====
-- backend/internal/repository/offer_delivery.go.
use dsk_agent.Base.{
  ℕ, ◌+◌, Bool, Option, none, some, List, [], ◌∷◌, ◌++◌, ◌==◌, find, update_where, if◌then◌else◌,
}
use dsk_agent.Base.Text.{Text, codes}
use dsk_agent.Domain.Error.{driver, fault}
use dsk_agent.Domain.Offer.{OfferDelivery, pending, sent, failed}
use dsk_agent.Db.{Action, ◌>>=◌, or_throw, exec}

abbrev pub save_row : ℕ → Text → Text → List (ℕ × Text × Text) → List (ℕ × Text × Text)
save_row offer_id content checksum rows = elim (find (λ e. e.0 == offer_id) rows) [
  | none ↦ rows ++ (offer_id, content, checksum) ∷ []
  | some e ↦ update_where (λ e. e.0 == offer_id) (λ e. (offer_id, content, checksum)) rows
]

-- The columns that `FinishDelivery` sets.
unfoldable pub finished : Bool → Text → ℕ → OfferDelivery → OfferDelivery
finished is_sent error_message now d = record d {
  status = if is_sent then sent else failed;
  error_message = if is_sent then none else some error_message;
  sent_at = if is_sent then some now else none;
}

module _ {F : Type 0} where
  -- `SaveDocument`: one document for each offer.
  unfoldable pub save_document : ℕ → Text → Text → Action F (Unit {0})
  save_document offer_id content checksum = exec λ c now t.
      (tt, record t { offer_documents = save_row offer_id content checksum t.offer_documents })

  -- `CreateDelivery`.
  unfoldable pub create_delivery : ℕ → Text → Action F OfferDelivery
  create_delivery offer_id recipient = exec λ c now t.
      let row : OfferDelivery = record {
        id = t.next_id;
        offer_id = offer_id;
        recipient = recipient;
        status = pending;
        error_message = none;
        created_at = now;
        sent_at = none;
      } in
      (row, record t { next_id = t.next_id + 1; offer_deliveries = t.offer_deliveries ++ row ∷ [] })

  -- `FinishDelivery`; a row that is missing is an error of the driver.
  unfoldable pub finish_delivery : ℕ → Bool → Text → Action F OfferDelivery
  unfolding finished
  finish_delivery id is_sent error_message = do
    found ← exec {A = Option OfferDelivery} λ c now t.
        elim (find (λ d. d.id == id) t.offer_deliveries) [
          | none ↦ (none, t)
          | some d ↦ (
            some (finished is_sent error_message now d),
            record t {
              offer_deliveries =
                  update_where (λ d. d.id == id) (finished is_sent error_message now)
                    t.offer_deliveries;
            },
          )
        ]
    or_throw found (fault (driver (codes "no rows in result set")))
