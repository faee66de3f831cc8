-- ===== src/Tests/Offers.antt =====
-- Offers: calculation, reading, decision and requests.
use dsk_agent.Base.{
  ℕ, ◌+◌, ◌≤◌, ◌≡◌, ◌≢◌, ◌==◌, ◌↔◌, refl, find, select, map, [], ◌∷◌, ◌++◌, arith, some, none, true,
  false, Bool, Option, List,
}
use dsk_agent.Base.Int.{pos}
use dsk_agent.Base.Text.{codes}
use dsk_agent.Domain.Error.{ok}
use dsk_agent.Domain.Account.{User, user, manager, supervisor}
use dsk_agent.Domain.Offer.{Offer, draft}
use dsk_agent.Domain.Deal.{Deal}
use dsk_agent.Discount.{percent_string_to_basis_points}
use dsk_agent.Db.{Store, Tables, exec, run_statement}
use dsk_agent.Repo.Account.{get_user_by_id, get_ancillary_unit}
use dsk_agent.Repo.Deal.{get_deal_by_id}
use dsk_agent.Repo.Policy.{get_active_max}
use dsk_agent.Repo.Offer.{
  decide_row, joined, get_by_id, get_apartment_offer_data, create, insert_offer,
}
use dsk_agent.OfferService.Rules.{
  authorize_offer_actor, can_read_offer, requested_offer, calculation,
}
use dsk_agent.OfferService.Calls.{
  decide, calculate, calculate_for, authorize_deal, get_for_actor, ancillary_selection,
  max_discount, list_for_actor, request_approval,
}
use dsk_agent.OfferService.Access.{IsStaffOf, IsReaderOf, calculate-authorized, get_for_actor_lem}
use dsk_agent.OfferService.Decision.{approved_by_actor, decide-quiet}
use dsk_agent.OfferService.Listing.{list_for_actor-quiet, IsLaterThan, is_own, with_numbers}
use dsk_agent.Base.Sort.{IsOrdered}
use mathlib.Core.List.{Perm}
use dsk_agent.OfferService.Approval.{marked_at, request_approval-quiet}
use dsk_agent.OfferService.Requests.{create_again}
use dsk_agent.OfferService.Table.{IsValid, here, next, inserted, decided_on, Writes-IsValid}
use dsk_agent.Tests.Data.{
  person, old_deal, waiting, tables, state, quiet_world, quiet_world-IsQuiet, policy, with_place,
}

abbrev after_two : Store ℕ
after_two = record state { tick = 2 }

calculate-authorized_example :
    (account : User) × (raw : Deal ℕ) × (n : ℕ) × (find (λ u. u.id == 2) tables.users
      ≡ some account)
    × (find (λ d. d.id == 30) tables.deals ≡ some raw)
    × IsStaffOf account raw
    × (percent_string_to_basis_points (codes "7") ≡ ok (pos n))
    × (n ≤ 10000)
unfolding calculate calculate_for max_discount ancillary_selection authorize_deal get_user_by_id
    get_deal_by_id get_active_max get_apartment_offer_data get_ancillary_unit exec run_statement
    authorize_offer_actor percent_string_to_basis_points dsk_agent.Base.Text.trim_space
    dsk_agent.Base.Strconv.split dsk_agent.Base.Strconv.parse_int dsk_agent.Base.Int.wrap
    dsk_agent.Base.Sort.sort dsk_agent.Money.decimal_money_to_integer
    dsk_agent.OfferService.Rules.add_units
calculate-authorized_example =
    calculate-authorized quiet_world state policy 30 2 (codes "7") with_place _ _ refl

get_for_actor_lem_example :
    (account : User) × (raw : Offer) × (deal : Deal ℕ) × (some (person 1 user) ≡ some account)
    × (find (λ p. p.id == 50) tables.offers ≡ some raw)
    × (waiting ≡ joined tables.ancillary_units raw)
    × (find (λ d. d.id == raw.deal_id) tables.deals ≡ some deal)
    × IsReaderOf account deal
unfolding get_for_actor get_by_id get_deal_by_id exec run_statement can_read_offer
get_for_actor_lem_example =
    get_for_actor_lem quiet_world state 50 (some (person 1 user)) waiting after_two refl

decide-quiet_example :
    (decide 50 (some (person 3 supervisor)) true [] quiet_world state).0
    ≡ ok (approved_by_actor 3 60 waiting)
unfolding dsk_agent.Base.Text.trim_space
decide-quiet_example =
    decide-quiet quiet_world quiet_world-IsQuiet state 50 waiting (person 3 supervisor) true [] refl

create_again_example :
    create (codes "r") waiting quiet_world state ≡ (ok waiting, record state { tick = 2 })
create_again_example =
    create_again quiet_world quiet_world-IsQuiet state (codes "r") waiting waiting refl

abbrev no_offers : Tables ℕ
no_offers = record tables { offers = [] }

abbrev one_offer : Tables ℕ
one_offer =
    (insert_offer (λ s. s) 60 (codes "q")
      (requested_offer 30 2 []
        (calculation 30 (pos 750) (pos 500) (pos 5000000) (pos 5000000) none none))
      no_offers).1

Writes-IsValid_example : IsValid (decide_row 100 3 true [] 61 one_offer).1
Writes-IsValid_example =
    Writes-IsValid {t = no_offers} (record { consistent = tt; requests = tt; versions = tt })
      (next
        (next here (
          inserted (λ s. s) 60 (codes "q") 30 2 []
            (calculation 30 (pos 750) (pos 500) (pos 5000000) (pos 5000000) none none)))
        (decided_on 100 3 true [] 61))

-- An offer of the same deal, changed later.
abbrev changed : Offer
changed = record waiting { id = 51; updated_at = waiting.updated_at + 1 }

-- An offer of another client's deal.
abbrev foreign : Offer
foreign = record waiting { id = 52; deal_id = 31 }

abbrev two_deals : List (Deal ℕ)
two_deals = old_deal ∷ record old_deal { id = 31; user_id = 9 } ∷ []

abbrev shop : Store ℕ
shop = record state {
  tables = record tables { deals = two_deals; offers = waiting ∷ changed ∷ foreign ∷ [] };
}

list_for_actor-quiet_example :
    (l : List Offer) × Perm l (waiting ∷ changed ∷ foreign ∷ [])
    × IsOrdered IsLaterThan l
    × ((list_for_actor (some (person 1 user)) quiet_world shop).0
        ≡ ok (
            select
              (is_own two_deals (person 1 user))
              (map (with_numbers tables.ancillary_units) l)))
list_for_actor-quiet_example =
    list_for_actor-quiet quiet_world quiet_world-IsQuiet shop (person 1 user)
      ((_, refl), ((_, refl), ((_, refl), tt)))

abbrev drafted : Offer
drafted = record waiting { status = draft }

abbrev draft_state : Store ℕ
draft_state = record state { tables = record tables { offers = drafted ∷ [] } }

request_approval-quiet_example :
    (request_approval 50 2 quiet_world draft_state).0 ≡ ok (marked_at 60 drafted)
request_approval-quiet_example =
    request_approval-quiet quiet_world quiet_world-IsQuiet draft_state 50 2 (person 2 manager)
      drafted old_deal refl refl refl
