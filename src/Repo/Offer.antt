-- ===== src/Repo/Offer.antt =====
-- backend/internal/repository/offer.go and offer_delivery.go.
use dsk_agent.Base.{
  ℕ, ◌+◌, Bool, true, ◌&&◌, ◌||◌, Option, none, some, List, [], ◌∷◌, ◌++◌, ltb, ◌==◌, find, select,
  map, update_where, if◌then◌else◌,
}
use dsk_agent.Base.Int.{ℤ}
use dsk_agent.Base.Text.{Text, text_eq}
use dsk_agent.Base.Sort.{sort}
use dsk_agent.Domain.Error.{apartment_not_found, offer_not_found}
use dsk_agent.Domain.Estate.{AncillaryUnit}
use dsk_agent.Domain.Offer.{
  Offer, pending_approval, approved, rejected, is_draft, is_pending_approval,
}
use dsk_agent.Db.{Action, Tables, ◌>>=◌, pure, lift, or_throw, query, exec}
use dsk_agent.Money.{decimal_money_to_integer}

-- `LEFT JOIN ancillary_units`, for the number of a unit.
abbrev pub unit_number : List AncillaryUnit → Option ℕ → Option Text
unit_number units none = none
unit_number units (some id) = elim (find (λ u. u.id == id) units) [
  | none ↦ none
  | some u ↦ some u.number
]

-- A row of `offers` with the numbers of its units.
abbrev pub joined : List AncillaryUnit → Offer → Offer
joined units o = record o {
  parking_number = unit_number units o.parking_unit_id;
  storage_number = unit_number units o.storage_unit_id;
}

abbrev pub joined? : List AncillaryUnit → Option Offer → Option Offer
joined? units none = none
joined? units (some o) = some (joined units o)

-- `SELECT MAX(version) FROM offers WHERE deal_id = …`, 0 where there is none.
unfoldable pub max_version : ℕ → List Offer → ℕ
max_version deal_id [] = 0
max_version deal_id (o ∷ l) =
    let rest = max_version deal_id l in
    if (o.deal_id == deal_id) && ltb rest o.version then o.version else rest

-- `ORDER BY updated_at DESC, id DESC`.
abbrev pub listed_before : Offer → Offer → Bool
listed_before o p =
    ltb p.updated_at o.updated_at || ((o.updated_at == p.updated_at) && ltb p.id o.id)

-- `NULLIF(TRIM(reason), '')`; the reason comes trimmed from the service.
abbrev pub nonempty : Text → Option Text
nonempty [] = none
nonempty (c ∷ s) = some (c ∷ s)

-- The columns that a decision sets.
unfoldable pub decided : ℕ → Bool → Text → ℕ → Offer → Offer
decided supervisor_id approve reason now o = record o {
  status = if approve then approved else rejected;
  approved_by = if approve then some supervisor_id else none;
  approved_at = if approve then some now else none;
  rejected_by = if approve then none else some supervisor_id;
  rejected_at = if approve then none else some now;
  rejection_reason = if approve then none else nonempty reason;
  updated_at = now;
}

module _ {F : Type 0} where
  -- `GetApartmentOfferData`.
  unfoldable pub get_apartment_offer_data : ℕ → Action F (ℤ × ℕ)
  get_apartment_offer_data apartment_id = do
    found ← query (λ now t. find (λ a. a.id == apartment_id) t.apartments)
    a ← or_throw found apartment_not_found
    price ← lift (decimal_money_to_integer a.price)
    pure (price, a.building_id)

  -- `GetByID`.
  unfoldable pub get_by_id : ℕ → Action F Offer
  get_by_id id = do
    found ← query (λ now t. joined? t.ancillary_units (find (λ o. o.id == id) t.offers))
    or_throw found offer_not_found

  -- `GetByRequestID`.
  unfoldable pub get_by_request_id : Text → Action F Offer
  get_by_request_id request_id = do
    found ←
        query (λ now t.
          joined? t.ancillary_units (find (λ o. text_eq o.request_id request_id) t.offers))
    or_throw found offer_not_found

  -- The row that `Create` inserts: what the caller fixes, and what the statement computes.
  unfoldable pub new_row : (Text → Text) → ℕ → Tables F → Text → Offer → Offer
  new_row percent_text now t request_id o = record o {
    id = t.next_id;
    version = max_version o.deal_id t.offers + 1;
    discount_percent = percent_text o.discount_percent;
    parking_number = none;
    storage_number = none;
    approved_by = none;
    approved_at = none;
    rejected_by = none;
    rejected_at = none;
    rejection_reason = none;
    created_at = now;
    updated_at = now;
    request_id = request_id;
  }

  -- `INSERT … ON CONFLICT (request_id) DO NOTHING RETURNING id`.
  unfoldable pub insert_offer : (Text → Text) → ℕ → Text → Offer → Tables F → Option ℕ × Tables F
  unfolding new_row
  insert_offer percent_text now request_id o t =
      elim (find (λ p. text_eq p.request_id request_id) t.offers) [
        | some existing ↦ (none, t)
        | none ↦
            let row = new_row percent_text now t request_id o in
            (some t.next_id, record t { next_id = t.next_id + 1; offers = t.offers ++ row ∷ [] })
      ]

  -- `Create`: reads the row back, or the row that already has the request's id.
  unfoldable pub create : Text → Offer → Action F Offer
  unfolding insert_offer get_by_id get_by_request_id
  create request_id o = do
    inserted ← exec (λ c now t. insert_offer c.percent_text now request_id o t)
    elim inserted [ none ↦ get_by_request_id request_id | some id ↦ get_by_id id ]

  -- `List`.
  unfoldable pub list : Option ℕ → Action F (List Offer)
  list created_by = query λ now t.
      let rows =
        select (λ o. elim created_by [ none ↦ true | some id ↦ o.created_by == id ]) t.offers in
      map (joined t.ancillary_units) (sort listed_before rows)

  -- The `UPDATE` of `MarkPendingApproval` and whether it met a row.
  unfoldable pub mark_row : ℕ → ℕ → Tables F → Option ℕ × Tables F
  mark_row id now t =
      let test = λ (o : Offer). (o.id == id) && (is_draft o.status && o.approval_required) in
      elim (find test t.offers) [
        | none ↦ (none, t)
        | some o ↦
            let offers =
              update_where test (λ p. record p { status = pending_approval; updated_at = now })
                t.offers in
            (some o.id, record t { offers = offers })
      ]

  -- `MarkPendingApproval`.
  unfoldable pub mark_pending_approval : ℕ → Action F Offer
  unfolding mark_row get_by_id
  mark_pending_approval id = do
    updated ← exec (λ c now t. mark_row id now t)
    updated_id ← or_throw updated offer_not_found
    get_by_id updated_id

  -- The `UPDATE` of `Decide`.
  unfoldable pub decide_row : ℕ → ℕ → Bool → Text → ℕ → Tables F → Option ℕ × Tables F
  unfolding decided
  decide_row id supervisor_id approve reason now t =
      let test =
        λ (o : Offer). (o.id == id) && (is_pending_approval o.status && o.approval_required) in
      elim (find test t.offers) [
        | none ↦ (none, t)
        | some o ↦
            let offers = update_where test (decided supervisor_id approve reason now) t.offers in
            (some o.id, record t { offers = offers })
      ]

  -- `Decide`.
  unfoldable pub decide : ℕ → ℕ → Bool → Text → Action F Offer
  unfolding decide_row get_by_id
  decide id supervisor_id approve reason = do
    updated ← exec (λ c now t. decide_row id supervisor_id approve reason now t)
    updated_id ← or_throw updated offer_not_found
    get_by_id updated_id
