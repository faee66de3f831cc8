-- ===== src/OfferService/Calls.antt =====
-- The methods of `offerService` (backend/internal/service/offer.go) on the repositories.
use dsk_agent.Base.{
  ℕ, Bool, not, ◌&&◌, ◌||◌, Option, none, some, List, [], ◌∷◌, ◌==◌, if◌then◌else◌,
}
use dsk_agent.Base.Int.{ℤ, pos, leb_ℤ}
use dsk_agent.Base.Text.{Text, trim_space, is_empty}
use dsk_agent.Discount.{percent_string_to_basis_points}
use dsk_agent.Domain.Error.{
  Result, ok, err, apartment_not_found, invalid_offer_state, offer_forbidden, invalid_price,
  invalid_ancillary,
}
use dsk_agent.Domain.Account.{User, Role, is_user, is_manager, is_supervisor}
use dsk_agent.Domain.Estate.{AncillaryUnit, AncillaryKind, parking, storage, same_kind, is_free}
use dsk_agent.Domain.Offer.{Offer, is_draft, is_pending_approval, OfferSelection, OfferCalculation}
use dsk_agent.Domain.Deal.{Deal}
use dsk_agent.Db.{Action, ◌>>=◌, ◌>>◌, pure, throw, lift, attempt, refuse_if}
use dsk_agent.Repo.Account.{get_user_by_id, get_ancillary_unit}
use dsk_agent.Repo.Policy.{get_active_max}
use dsk_agent.Repo.Offer as Store
use dsk_agent.Repo.Deal.{get_deal_by_id}
use dsk_agent.OfferService.Rules.{
  DiscountPolicy, own_limit, authorize_offer_actor, can_read_offer, add_units, calculation,
  is_offer_not_found, is_policy_not_found, requested_offer, is_same_request, still_pending,
  or_forbidden, keep, decided_result,
}

module _ {F : Type 0} where
  abbrev limit_from : DiscountPolicy → Role → Result Text → Action F ℤ
  limit_from policy role (ok text) = lift (percent_string_to_basis_points text)
  limit_from policy role (err e) =
      if is_policy_not_found e then lift (own_limit policy role) else throw e

  -- `maxDiscount`.
  unfoldable pub max_discount : DiscountPolicy → ℕ → Role → Action F ℤ
  unfolding own_limit
  max_discount policy apartment_id role =
      if policy.has_reader
      then (do value ← attempt (get_active_max apartment_id role); limit_from policy role value)
      else lift (own_limit policy role)

  -- `authorizeDeal`.
  unfoldable pub authorize_deal : ℕ → ℕ → Action F (Deal F × User)
  unfolding authorize_offer_actor
  authorize_deal deal_id actor_id = do
    account ← get_user_by_id actor_id
    deal ← get_deal_by_id deal_id
    lift (authorize_offer_actor (some account) (some deal))
    pure (deal, account)

  -- `ancillarySelection`.
  unfoldable pub ancillary_selection :
      Option ℕ → ℕ → AncillaryKind → Action F (Option AncillaryUnit)
  ancillary_selection none building_id kind = pure none
  ancillary_selection (some id) building_id kind = do
    refuse_if (id == 0) invalid_ancillary
    unit ← get_ancillary_unit id
    refuse_if
        (not (unit.building_id == building_id)
          || not (same_kind unit.kind kind)
          || not (is_free unit.status))
        invalid_ancillary
    pure (some unit)

  -- `Calculate` after its access check.
  unfoldable pub calculate_for :
      DiscountPolicy → ℤ → OfferSelection → Deal F × User → Action F OfferCalculation
  calculate_for policy discount selection (deal, account) = do
    refuse_if (deal.apartment_id == 0) apartment_not_found
    limit ← max_discount policy deal.apartment_id account.role
    (apartment_price, building_id) ← Store.get_apartment_offer_data deal.apartment_id
    refuse_if (leb_ℤ apartment_price (pos 0)) invalid_price
    parking_unit ← ancillary_selection selection.parking_unit_id building_id parking
    storage_unit ← ancillary_selection selection.storage_unit_id building_id storage
    base ← lift (add_units apartment_price parking_unit storage_unit)
    pure (calculation deal.id discount limit apartment_price base parking_unit storage_unit)

  -- `Calculate`.
  unfoldable pub calculate :
      DiscountPolicy → ℕ → ℕ → Text → OfferSelection → Action F OfferCalculation
  calculate policy deal_id actor_id discount_percent selection = do
    discount ← lift (percent_string_to_basis_points discount_percent)
    found ← authorize_deal deal_id actor_id
    calculate_for policy discount selection found

  -- `Create` after the calculation: the offer of an earlier call with the same request id, or a new one.
  unfoldable pub create_for :
      Text → ℕ → ℕ → Text → OfferSelection → OfferCalculation → Action F Offer
  unfolding requested_offer is_same_request
  create_for request_id deal_id actor_id generated_text selection c = do
    existing ← attempt (Store.get_by_request_id request_id)
    elim existing [
      | ok o ↦
          if is_same_request deal_id actor_id selection o then pure o else throw offer_forbidden
      | err e ↦
          if is_offer_not_found e
          then Store.create request_id (requested_offer deal_id actor_id generated_text c)
          else throw e
    ]

  -- `Create`.
  unfoldable pub create :
      DiscountPolicy → Text → ℕ → ℕ → Text → Text → OfferSelection → Action F Offer
  unfolding create_for
  create policy request_id deal_id actor_id discount_percent generated_text selection = do
    c ← calculate policy deal_id actor_id discount_percent selection
    create_for request_id deal_id actor_id generated_text selection c

  abbrev after_mark : ℕ → Result Offer → Action F Offer
  after_mark offer_id (ok updated) = pure updated
  after_mark offer_id (err e) =
      if is_offer_not_found e
      then (do current ← attempt (Store.get_by_id offer_id); lift (still_pending (err e) current))
      else throw e

  -- A pending offer is returned as it is, and a draft is marked.
  unfoldable pub pending_or_marked : ℕ → Offer → Action F Offer
  pending_or_marked offer_id offer = if is_pending_approval offer.status then pure offer else (do
    refuse_if (not (is_draft offer.status)) invalid_offer_state
    updated ← attempt (Store.mark_pending_approval offer_id)
    after_mark offer_id updated)

  -- `RequestApproval`.
  unfoldable pub request_approval : ℕ → ℕ → Action F Offer
  unfolding authorize_offer_actor pending_or_marked
  request_approval offer_id actor_id = do
    account ← get_user_by_id actor_id
    offer ← Store.get_by_id offer_id
    deal ← get_deal_by_id offer.deal_id
    lift (or_forbidden (authorize_offer_actor (some account) (some deal)))
    refuse_if (not offer.approval_required) invalid_offer_state
    pending_or_marked offer_id offer

  -- `Get`.
  unfoldable pub get : ℕ → Action F Offer
  get offer_id = Store.get_by_id offer_id

  -- `GetForActor`.
  unfoldable pub get_for_actor : ℕ → Option User → Action F Offer
  unfolding can_read_offer
  get_for_actor offer_id actor = do
    offer ← Store.get_by_id offer_id
    deal ← get_deal_by_id offer.deal_id
    refuse_if (not (can_read_offer actor (some deal))) offer_forbidden
    pure offer

  -- The loop of `ListForActor`: one read of a deal for each offer.
  unfoldable pub visible : User → List Offer → Action F (List Offer)
  unfolding can_read_offer
  visible actor [] = pure []
  visible actor (o ∷ l) = do
    deal ← get_deal_by_id o.deal_id
    rest ← visible actor l
    pure (keep (can_read_offer (some actor) (some deal)) o rest)

  -- `ListForActor`.
  unfoldable pub list_for_actor : Option User → Action F (List Offer)
  unfolding visible
  list_for_actor none = throw offer_forbidden
  list_for_actor (some actor) = do
    refuse_if (not (is_supervisor actor.role || is_manager actor.role || is_user actor.role))
        offer_forbidden
    items ← Store.list none
    if is_supervisor actor.role then pure items else visible actor items

  -- `Decide`.
  unfoldable pub decide : ℕ → Option User → Bool → Text → Action F Offer
  decide offer_id none approve reason = throw offer_forbidden
  decide offer_id (some actor) approve reason = do
    refuse_if (not (is_supervisor actor.role)) offer_forbidden
    refuse_if (not approve && is_empty (trim_space reason)) invalid_offer_state
    offer ← Store.get_by_id offer_id
    refuse_if (not (is_pending_approval offer.status) || not offer.approval_required)
        invalid_offer_state
    updated ← attempt (Store.decide offer_id actor.id approve (trim_space reason))
    lift (decided_result updated)
