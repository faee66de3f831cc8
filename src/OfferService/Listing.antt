-- ===== src/OfferService/Listing.antt =====
-- The offers that an actor sees (`ListForActor` in backend/internal/service/offer.go).
use dsk_agent.Base.{
  ℕ, ◌+◌, ◌==◌, ◌≡◌, refl, ap, ◌∙◌, Bool, true, false, ◌||◌, ◌&&◌, ◌<◌, ◌≤◌, ◌⊎◌, inl, inr,
  Bool-cases, Option, none, some, find, select, map, arith, List, [], ◌∷◌, All, if◌then◌else◌,
}
use dsk_agent.Base.Sort.{sort, sort-perm, sort-All, sort-IsOrdered, IsOrdered}
use mathlib.Core.List.{Perm}
use dsk_agent.Base.Text.{Text}
use dsk_agent.Domain.Error.{ok, err, deal_not_found, offer_forbidden}
use dsk_agent.Domain.Account.{User, is_user, is_manager, is_supervisor}
use dsk_agent.Domain.Offer.{Offer}
use dsk_agent.Domain.Deal.{Deal}
use dsk_agent.Domain.Estate.{AncillaryUnit}
use dsk_agent.Db.{Action, Columns, World, Store, Tables, exec, or_throw, pure, ◌>>=◌}
use dsk_agent.Db.Laws.{IsQuiet, exec-quiet, bind-run}
use dsk_agent.Repo.Deal.{get_deal_by_id, with_names}
use dsk_agent.Repo.Offer.{list, joined, listed_before, unit_number}
use dsk_agent.OfferService.Rules.{can_read_offer, keep}
use dsk_agent.OfferService.Calls.{visible, list_for_actor}

-- The actor may read the offer by the deal that the table has for it.
abbrev pub sees : {F : Type 0} → List (Deal F) → User → Offer → Bool
sees deals actor o = can_read_offer (some actor) (find (λ d. d.id == o.deal_id) deals)

-- The offer comes before another: changed later, or at the same time with an id at least as great.
abbrev pub IsLaterThan : Offer → Offer → Type 0
IsLaterThan o p = (p.updated_at < o.updated_at) ⊎ ((o.updated_at ≡ p.updated_at) × (p.id ≤ o.id))

-- The deal of the offer is the manager's or the client's own.
abbrev pub is_own : {F : Type 0} → List (Deal F) → User → Offer → Bool
is_own deals actor o = elim (find (λ d. d.id == o.deal_id) deals) [
  | none ↦ false
  | some d ↦
      if is_manager actor.role
      then d.employee_id == actor.id
      else is_user actor.role && (d.user_id == actor.id)
]

-- The number of the unit that an offer names, if it names one of the table.
abbrev pub number_among : List AncillaryUnit → Option ℕ → Option Text
number_among units id = elim id [
  | none ↦ none
  | some n ↦ elim (find (λ u. u.id == n) units) [ none ↦ none | some u ↦ some u.number ]
]

-- The offer shown with the numbers of its parking unit and of its storage unit.
abbrev pub with_numbers : List AncillaryUnit → Offer → Offer
with_numbers units o = record o {
  parking_number = number_among units o.parking_unit_id;
  storage_number = number_among units o.storage_unit_id;
}

unit_number-number_among :
    (units : List AncillaryUnit) (id : Option ℕ) → unit_number units id ≡ number_among units id
unit_number-number_among units none = refl
unit_number-number_among units (some n) = refl

rows-with_numbers :
    (units : List AncillaryUnit) (l : List Offer)
    → map (joined units) l ≡ map (with_numbers units) l
rows-with_numbers units [] = refl
rows-with_numbers units (o ∷ l) =
    let park = unit_number-number_among units o.parking_unit_id in
    let store = unit_number-number_among units o.storage_unit_id in
    let same : joined units o ≡ with_numbers units o = rw (park, store) refl in
    rw (same, rows-with_numbers units l) refl

read_own :
    {F : Type 0} (actor : User)
    → is_supervisor actor.role ≡ false
    → (deal : Option (Deal F))
    → can_read_offer (some actor) deal ≡ elim deal [
      | none ↦ false
      | some d ↦
          if is_manager actor.role
          then d.employee_id == actor.id
          else is_user actor.role && (d.user_id == actor.id)
    ]
unfolding can_read_offer
read_own actor h none = refl
read_own actor h (some d) = ground arith

sees-is_own :
    {F : Type 0} (deals : List (Deal F)) (actor : User)
    → is_supervisor actor.role ≡ false
    → (o : Offer) → sees deals actor o ≡ is_own deals actor o
sees-is_own deals actor h o = read_own actor h (find (λ d. d.id == o.deal_id) deals)

later : (o p : Offer) → listed_before o p ≡ true → IsLaterThan o p
later o p h = ground arith

not_earlier : (o p : Offer) → listed_before p o ≡ false → IsLaterThan o p
not_earlier o p h = ground arith

later_trans : (o p q : Offer) → IsLaterThan o p → IsLaterThan p q → IsLaterThan o q
later_trans o p q h1 h2 = ground arith

-- The deals have the offer's deal.
abbrev pub HasDeal : {F : Type 0} → List (Deal F) → Offer → Type 0
HasDeal {F = F} deals o = (d : Deal F) × (find (λ d. d.id == o.deal_id) deals ≡ some d)

module _ {F : Type 0} (w : World F) (quiet : IsQuiet w) where
  pub get_deal_by_id-quiet :
      (id : ℕ) (s : Store F) (raw : Deal F)
      → find (λ d. d.id == id) s.tables.deals ≡ some raw
      → get_deal_by_id id w s ≡ (ok (with_names s.tables raw), record s { tick = s.tick + 1 })
  unfolding get_deal_by_id
  get_deal_by_id-quiet id s raw h =
      let read : Columns F → ℕ → Tables F → Option (Deal F) × Tables F = λ c now t. (
        elim (find (λ d. d.id == id) t.deals) [ none ↦ none | some d ↦ some (with_names t d) ],
        t,
      ) in
      bind-run (exec read) (λ found. or_throw found deal_not_found) w s (exec-quiet w quiet read s)
      ∙ rw h refl

  pure-keep :
      (b : Bool) (o : Offer) (r : List Offer) (s : Store F)
      → pure (keep b o r) w s ≡ (ok (if b then o ∷ r else r), s)
  pure-keep true o r s = refl
  pure-keep false o r s = refl

  visible-quiet :
      (actor : User) (l : List Offer) (s : Store F)
      → All (HasDeal s.tables.deals) l
      → (s' : Store F) × (visible actor l w s ≡ (ok (select (sees s.tables.deals actor) l), s'))
        × (s'.tables ≡ s.tables)
  unfolding visible can_read_offer
  visible-quiet actor [] s h = (s, refl, refl)
  visible-quiet actor (o ∷ l) s ((raw, found), h) =
      let next : Store F = record s { tick = s.tick + 1 } in
      let (s', rest, same) = visible-quiet actor l next h in
      let put : Deal F → List Offer → Action F (List Offer) =
        λ d r. pure (keep (can_read_offer (some actor) (some d)) o r) in
      let first =
        bind-run (get_deal_by_id o.deal_id) (λ d. visible actor l >>= put d) w s
          (get_deal_by_id-quiet o.deal_id s raw found) in
      let second = bind-run (visible actor l) (put (with_names s.tables raw)) w next rest in
      (
        s',
        first
            ∙ second
            ∙ rw (found, sees) (pure-keep (can_read_offer (some actor) (some raw)) o _ s'),
        same,
      )

  select_all : {A : Type 0} (l : List A) → select (λ x. true) l ≡ l
  select_all [] = refl
  select_all (x ∷ l) = ap (λ r. x ∷ r) (select_all l)

  select-cong :
      {A : Type 0} (f g : A → Bool) → ((x : A) → f x ≡ g x) → (l : List A) → select f l ≡ select g l
  select-cong f g h [] = refl
  select-cong f g h (x ∷ l) = rw (h x, select-cong f g h l) refl

  list-quiet :
      (s : Store F)
      → list none w s ≡ (
        ok (map (joined s.tables.ancillary_units) (sort listed_before s.tables.offers)),
        record s { tick = s.tick + 1 },
      )
  unfolding list
  list-quiet s =
      let read : Columns F → ℕ → Tables F → List Offer × Tables F = λ c now t.
        (map (joined t.ancillary_units) (sort listed_before (select (λ o. true) t.offers)), t) in
      exec-quiet w quiet read s ∙ rw (select_all s.tables.offers) refl

  -- What the handler gives for the rows that it reads.
  listed :
      (s : Store F) (actor : User)
      → let rows = map (joined s.tables.ancillary_units) (sort listed_before s.tables.offers) in
        All (HasDeal s.tables.deals) rows
        → (list_for_actor (some actor) w s).0 ≡ (
            if is_supervisor actor.role
            then ok rows
            else if is_manager actor.role || is_user actor.role
            then ok (select (sees s.tables.deals actor) rows)
            else err offer_forbidden)
  unfolding list_for_actor
  listed s actor h =
      let rows = map (joined s.tables.ancillary_units) (sort listed_before s.tables.offers) in
      let (s', rest, same) = visible-quiet actor rows (record s { tick = s.tick + 1 }) h in
      let read = list-quiet s in ground (arith, rest, read)

  joined-All :
      (deals : List (Deal F)) (units : List AncillaryUnit) (l : List Offer)
      → All (HasDeal deals) l
      → All (HasDeal deals) (map (joined units) l)
  joined-All deals units [] h = tt
  joined-All deals units (o ∷ l) h = (h.0, joined-All deals units l h.1)

  own_rows :
      (s : Store F) (actor : User) (rows : List Offer)
      → (if is_supervisor actor.role
          then ok rows
          else if is_manager actor.role || is_user actor.role
          then ok (select (sees s.tables.deals actor) rows)
          else err offer_forbidden)
        ≡ (if is_supervisor actor.role
            then ok rows
            else if is_manager actor.role || is_user actor.role
            then ok (select (is_own s.tables.deals actor) rows)
            else err offer_forbidden)
  own_rows s actor rows = elim (Bool-cases (is_supervisor actor.role)) [
    | inl e ↦ rw e refl
    | inr e ↦
        let same =
          select-cong (sees s.tables.deals actor) (is_own s.tables.deals actor)
            (sees-is_own s.tables.deals actor e) rows in
        rw (e, same) refl
  ]

  -- In a quiet world where every offer has its deal, `ListForActor` reads all offers, each once, the one
  -- changed last first and at equal times the one with the greater id, with the numbers of their ancillary
  -- units. A supervisor gets them all, a manager those whose deal has them as its employee, a client those
  -- whose deal has them as its client, in that order; everyone else is refused.
  pub list_for_actor-quiet :
      (s : Store F) (actor : User)
      → All (HasDeal s.tables.deals) s.tables.offers
      → (l : List Offer) × Perm l s.tables.offers
        × IsOrdered IsLaterThan l
        × ((list_for_actor (some actor) w s).0 ≡ (
            let rows = map (with_numbers s.tables.ancillary_units) l in
            if is_supervisor actor.role
            then ok rows
            else if is_manager actor.role || is_user actor.role
            then ok (select (is_own s.tables.deals actor) rows)
            else err offer_forbidden))
  list_for_actor-quiet s actor h =
      let l = sort listed_before s.tables.offers in
      let found = sort-All listed_before (HasDeal s.tables.deals) s.tables.offers h in
      let rows = joined-All s.tables.deals s.tables.ancillary_units l found in
      (
        l,
        sort-perm listed_before s.tables.offers,
        sort-IsOrdered listed_before IsLaterThan later not_earlier later_trans s.tables.offers,
        listed s actor rows
            ∙ own_rows s actor (map (joined s.tables.ancillary_units) l)
            ∙ ap
                (λ rows.
                  if is_supervisor actor.role
                  then ok rows
                  else if is_manager actor.role || is_user actor.role
                  then ok (select (is_own s.tables.deals actor) rows)
                  else err offer_forbidden)
                (rows-with_numbers s.tables.ancillary_units l),
      )
