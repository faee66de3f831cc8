-- ===== src/OfferService/Requests.antt =====
-- One offer for one request (`Create` in backend/internal/repository/offer.go).
use dsk_agent.Base.{
  ℕ, ◌+◌, ◌<◌, ◌==◌, ==_refl, ◌≡◌, refl, ◌∙◌, Option, none, some, find, arith, [], ◌∷◌, ◌++◌, All,
}
use dsk_agent.Base.Text.{Text, text_eq}
use dsk_agent.Base.Rows.{find-append, find_absent, All-map}
use dsk_agent.Domain.Error.{ok, offer_not_found}
use dsk_agent.Domain.Offer.{Offer}
use dsk_agent.Db.{World, Store, Columns, Tables, Action, exec, or_throw}
use dsk_agent.Db.Laws.{IsQuiet, exec-quiet, bind-run}
use dsk_agent.Repo.Offer.{
  create, insert_offer, new_row, joined, joined?, get_by_id, get_by_request_id,
}
use dsk_agent.OfferService.Decision.{get_by_id-quiet}

module _ {F : Type 0} (w : World F) (quiet : IsQuiet w) (s : Store F) (request_id : Text)
    (o : Offer) where
  answer : Option ℕ → Action F Offer
  answer none = get_by_request_id request_id
  answer (some id) = get_by_id id

  -- In a quiet world the store answers a request whose id some row already has with that row, whoever created
  -- it and for whatever deal, and changes no table.
  pub create_again :
      (row : Offer)
      → find (λ p. text_eq p.request_id request_id) s.tables.offers ≡ some row
      → create request_id o w s
        ≡ (ok (joined s.tables.ancillary_units row), record s { tick = s.tick + 1 + 1 })
  unfolding create insert_offer get_by_request_id answer
  create_again row found =
      let step : Columns F → ℕ → Tables F → Option ℕ × Tables F =
        λ c now t. insert_offer c.percent_text now request_id o t in
      let read : Columns F → ℕ → Tables F → Option Offer × Tables F = λ c now t.
        (joined? t.ancillary_units (find (λ p. text_eq p.request_id request_id) t.offers), t) in
      let after : Store F = record s { tick = s.tick + 1 } in
      let ran : exec step w s ≡ (ok none, after) =
        exec-quiet w quiet step s ∙ rw (found, insert_offer) refl in
      bind-run (exec step) answer w s ran
      ∙ bind-run (exec read) (λ x. or_throw x offer_not_found) w after
          (exec-quiet w quiet read after)
      ∙ rw found refl

  -- In a quiet world, where all ids are below the next one, the store answers a new request with a new row and adds
  -- just that row to the table.
  pub create_new :
      find (λ p. text_eq p.request_id request_id) s.tables.offers ≡ none
      → All (λ p. p.id < s.tables.next_id) s.tables.offers
      → let row = new_row w.columns.percent_text (w.slot s.tick).now s.tables request_id o in
        (s' : Store F) × (create request_id o w s ≡ (ok (joined s.tables.ancillary_units row), s'))
        × (s'.tables.offers ≡ s.tables.offers ++ row ∷ [])
  unfolding create insert_offer new_row answer
  create_new fresh below =
      let step : Columns F → ℕ → Tables F → Option ℕ × Tables F =
        λ c now t. insert_offer c.percent_text now request_id o t in
      let row = new_row w.columns.percent_text (w.slot s.tick).now s.tables request_id o in
      let after : Store F = record s {
        tables = record s.tables {
          next_id = s.tables.next_id + 1;
          offers = s.tables.offers ++ row ∷ [];
        };
        tick = s.tick + 1;
      } in
      let ran : exec step w s ≡ (ok (some s.tables.next_id), after) =
        exec-quiet w quiet step s ∙ rw (fresh, insert_offer) refl in
      let absent =
        find_absent (λ p. p.id == s.tables.next_id) s.tables.offers
          (All-map _ _ (λ p lt. ground (arith, lt)) s.tables.offers below) in
      let found =
        find-append (λ p. p.id == s.tables.next_id) s.tables.offers row absent
          (==_refl s.tables.next_id) in
      (
        record after { tick = s.tick + 1 + 1 },
        bind-run (exec step) answer w s ran
            ∙ get_by_id-quiet w quiet s.tables.next_id after row found,
        refl,
      )
