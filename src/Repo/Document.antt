-- ===== src/Repo/Document.antt =====
-- `GetDocument` of backend/internal/repository/offer.go: what the document of an offer shows, joined from
-- seven tables.
use dsk_agent.Base.{
  ℕ, Option, none, some, List, find, ◌==◌, [], ◌≡◌, ap, ◌∙◌, arith, inl, inr, Option-cases, ==_iff,
}
use dsk_agent.Base.Rows.{find_test}
use dsk_agent.Db.Laws.{bind-ok}
use dsk_agent.Repo.Reads.{first_tables, get_offer_by_id-ok}
use dsk_agent.Base.Text.{Text}
use dsk_agent.Domain.Error.{ok, offer_not_found}
use dsk_agent.Domain.Account.{User}
use dsk_agent.Domain.Estate.{Apartment, AncillaryUnit}
use dsk_agent.Domain.Construction.{ResidentialComplex, BuildingRow}
use dsk_agent.Domain.Offer.{Offer}
use dsk_agent.Domain.Deal.{Deal}
use dsk_agent.Domain.Document.{OfferDocument}
use dsk_agent.Db.{Action, Columns, World, Store, Tables, or_throw, exec, run_statement}
use dsk_agent.Db as Db
use dsk_agent.Repo.Offer.{get_by_id}

infixl 5 ◌>>=◌
abbrev ◌>>=◌ : {A B : Type 0} → Option A → (A → Option B) → Option B
none >>= f = none
some a >>= f = f a

abbrev or_blank : Option Text → Text
or_blank none = []
or_blank (some s) = s

after-row :
    {A B R : Type 0} (x : Option A) {f : A → Option B} {b : B}
    → (x >>= f) ≡ some b
    → ((a : A) → f a ≡ some b → R)
    → R
after-row none h each = absurd (cc h)
after-row (some a) h each = each a h

module _ {F : Type 0} where
  -- `parking.area` and `storage.area`, of a LEFT JOIN.
  abbrev area_of : Columns F → List AncillaryUnit → Option ℕ → Option F
  area_of c units none = none
  area_of c units (some id) = do
    u ← find (λ (u : AncillaryUnit). u.id == id) units
    area ← u.area
    some (c.price area)

  -- The row of the offer `o` as the table has it, shown with the terms of `offer`.
  unfoldable pub joined_document : Columns F → Tables F → Offer → Offer → Option (OfferDocument F)
  joined_document c t offer o = do
    deal ← find (λ (d : Deal F). d.id == o.deal_id) t.deals
    client ← find (λ (u : User). u.id == deal.user_id) t.users
    manager ← find (λ (u : User). u.id == o.created_by) t.users
    apartment ← find (λ (a : Apartment). a.id == deal.apartment_id) t.apartments
    building ← find (λ (b : BuildingRow F). b.id == apartment.building_id) t.buildings
    complex ←
        find (λ (x : ResidentialComplex). x.id == building.residential_complex_id)
          t.residential_complexes
    some (record {
      offer = offer;
      client_name = client.name;
      client_email = client.email;
      manager_name = manager.name;
      apartment_id = apartment.id;
      apartment_number = apartment.number;
      apartment_rooms = apartment.rooms;
      apartment_floor = apartment.floor;
      apartment_area = c.price apartment.area;
      apartment_finishing = apartment.type_finishing;
      complex_name = complex.name;
      complex_address = complex.address;
      building_id = building.id;
      building_address = building.address;
      building_district = or_blank building.district;
      readiness_percent = building.readiness_percent;
      planned_date = building.planned_date;
      forecast_date = building.forecast_date;
      delivery_shift_days = building.delivery_shift_days;
      parking_area = area_of c t.ancillary_units o.parking_unit_id;
      storage_area = area_of c t.ancillary_units o.storage_unit_id;
    })

  abbrev document_row : Offer → ℕ → Columns F → Tables F → Option (OfferDocument F)
  document_row offer id c t = do
    o ← find (λ (p : Offer). p.id == id) t.offers
    joined_document c t offer o

  -- `GetDocument`.
  unfoldable pub get_document : ℕ → Action F (OfferDocument F)
  unfolding joined_document
  get_document id = Db.◌>>=◌ (get_by_id id) λ offer.
      Db.◌>>=◌ (exec λ c now t. (document_row offer id c t, t))
        λ found. or_throw found offer_not_found

  joined_document-offer :
      (c : Columns F) (t : Tables F) (offer o : Offer) (d : OfferDocument F)
      → joined_document c t offer o ≡ some d
      → d.offer ≡ offer
  unfolding joined_document
  joined_document-offer c t offer o d h =
      after-row (find (λ (e : Deal F). e.id == o.deal_id) t.deals) h λ deal h1.
        after-row (find (λ (u : User). u.id == deal.user_id) t.users) h1 λ client h2.
          after-row (find (λ (u : User). u.id == o.created_by) t.users) h2 λ manager h3.
            after-row (find (λ (a : Apartment). a.id == deal.apartment_id) t.apartments) h3
              λ apartment h4.
                after-row (find (λ (b : BuildingRow F). b.id == apartment.building_id) t.buildings)
                  h4
                  λ building h5.
                    after-row
                      (find (λ (x : ResidentialComplex). x.id == building.residential_complex_id)
                        t.residential_complexes)
                      h5 λ complex e. ground (arith, e)

  -- The document that is read is that of the offer asked for.
  pub get_document-offer :
      (w : World F) (s : Store F) (id : ℕ) (d : OfferDocument F) (s' : Store F)
      → get_document id w s ≡ (ok d, s')
      → d.offer.id ≡ id
  unfolding get_document exec run_statement
  get_document-offer w s id d s' h =
      let read : Offer → Action F (OfferDocument F) = λ offer.
        Db.◌>>=◌ (exec λ c now t. (document_row offer id c t, t))
          λ found. or_throw found offer_not_found in
      let (o, s1, got, h1) = bind-ok (get_by_id id) read w s d s' h in
      let (raw, found, is_row, at) = get_offer_by_id-ok w s id o s1 got in
      let t = (w.slot s1.tick).others s1.tables in
      let same : d.offer ≡ o = elim (Option-cases (document_row o id w.columns t)) [
        | inl e ↦ absurd (ground (arith, e, h1))
        | inr (x, e) ↦
            let is_d : x ≡ d = ground (arith, e, h1) in
            after-row (find (λ (p : Offer). p.id == id) t.offers) (e ∙ ap some is_d)
              λ p. joined_document-offer w.columns t o p d
      ] in
      let held = find_test (λ (p : Offer). p.id == id) (first_tables w s).offers found in
      ap (λ x. x.id) same ∙ ap (λ x. x.id) is_row ∙ (==_iff raw.id id).0 held
