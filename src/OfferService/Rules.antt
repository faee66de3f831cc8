-- ===== src/OfferService/Rules.antt =====
-- The parts of backend/internal/service/offer.go that do not touch the repositories: limits, access,
-- the sum of the prices, the calculation, and what the methods make of an error.
use dsk_agent.Base.{
  ℕ, Bool, true, false, ◌&&◌, ◌||◌, Option, none, some, List, [], ◌∷◌, ◌==◌, opt_eq, if◌then◌else◌,
}
use dsk_agent.Base.Int.{ℤ, pos, ◌+ℤ◌, ◌-ℤ◌, ltb_ℤ, max_int64, wrap}
use dsk_agent.Base.Text.{Text, trim_space}
use dsk_agent.Discount.{percent_string_to_basis_points, format_basis_points, rounded_ratio}
use dsk_agent.Domain.Error.{
  Err, Result, ok, err, offer_not_found, discount_policy_not_found, invalid_offer_state,
  offer_forbidden, invalid_price, limits_out_of_order,
}
use dsk_agent.Domain.Account.{User, Role, manager, supervisor, is_user, is_manager, is_supervisor}
use dsk_agent.Domain.Estate.{AncillaryUnit}
use dsk_agent.Domain.Offer.{
  Offer, draft, approved, is_pending_approval, OfferSelection, OfferCalculation,
}
use dsk_agent.Domain.Deal.{Deal}

-- The limits of the service, in basis points, and whether it has a reader of policies.
pub record DiscountPolicy : Type 0 where
  pub manager_max_basis_points : ℤ
  pub supervisor_max_basis_points : ℤ
  pub has_reader : Bool

abbrev with_limits : Bool → Result ℤ → Result ℤ → Result DiscountPolicy
with_limits has_reader (err e) b = err e
with_limits has_reader (ok a) (err e) = err e
with_limits has_reader (ok a) (ok b) =
    if ltb_ℤ b a
    then err limits_out_of_order
    else ok (record {
      manager_max_basis_points = a;
      supervisor_max_basis_points = b;
      has_reader = has_reader;
    })

-- `NewOfferService`, from the texts that `strconv.FormatFloat` makes of the two limits.
unfoldable pub new_offer_service : Text → Text → Bool → Result DiscountPolicy
new_offer_service manager_max supervisor_max has_reader =
    with_limits has_reader (percent_string_to_basis_points manager_max)
      (percent_string_to_basis_points supervisor_max)

-- `authorizeOfferActor`; a nil user or deal is refused.
unfoldable pub authorize_offer_actor :
    {F : Type 0} → Option User → Option (Deal F) → Result (Unit {0})
authorize_offer_actor none deal = err offer_forbidden
authorize_offer_actor (some account) none = err offer_forbidden
authorize_offer_actor (some account) (some deal) = elim account.role [
  | supervisor ↦ ok tt
  | manager ↦ if deal.employee_id == account.id then ok tt else err offer_forbidden
  | _ ↦ err offer_forbidden
]

-- `canReadOffer`.
unfoldable pub can_read_offer : {F : Type 0} → Option User → Option (Deal F) → Bool
can_read_offer none deal = false
can_read_offer (some account) none = false
can_read_offer (some account) (some deal) =
    is_supervisor account.role
    || (is_manager account.role && (deal.employee_id == account.id))
    || (is_user account.role && (deal.user_id == account.id))

-- One round of the loop over the two optional units.
unfoldable pub add_unit : ℤ → Option AncillaryUnit → Result ℤ
add_unit base none = ok base
add_unit base (some unit) =
    if ltb_ℤ (wrap (pos max_int64 -ℤ base)) unit.price
    then err invalid_price
    else ok (wrap (base +ℤ unit.price))

abbrev pub and_then : Result ℤ → (ℤ → Result ℤ) → Result ℤ
and_then (ok a) f = f a
and_then (err e) f = err e

-- The loop over the parking place and the storage room.
unfoldable pub add_units : ℤ → Option AncillaryUnit → Option AncillaryUnit → Result ℤ
unfolding add_unit
add_units base parking_unit storage_unit =
    and_then (add_unit base parking_unit) (λ b. add_unit b storage_unit)

abbrev pub unit_id : Option AncillaryUnit → Option ℕ
unit_id none = none
unit_id (some unit) = some unit.id

abbrev pub unit_text : Option AncillaryUnit → Option Text
unit_text none = none
unit_text (some unit) = some unit.number

abbrev pub unit_price : Option AncillaryUnit → ℤ
unit_price none = pos 0
unit_price (some unit) = unit.price

-- The calculation from its base price.
unfoldable pub calculation :
    ℕ → ℤ → ℤ → ℤ → ℤ → Option AncillaryUnit → Option AncillaryUnit → OfferCalculation
calculation deal_id discount max_discount apartment_price base parking_unit storage_unit =
    let amount = rounded_ratio base discount 10000 in
    record {
      deal_id = deal_id;
      base_price = base;
      apartment_price = apartment_price;
      parking_unit_id = unit_id parking_unit;
      parking_number = unit_text parking_unit;
      parking_price = unit_price parking_unit;
      storage_unit_id = unit_id storage_unit;
      storage_number = unit_text storage_unit;
      storage_price = unit_price storage_unit;
      discount_percent = format_basis_points discount;
      discount_amount = amount;
      final_price = wrap (base -ℤ amount);
      max_allowed_discount = format_basis_points max_discount;
      requires_approval = ltb_ℤ max_discount discount;
    }

abbrev pub is_offer_not_found : Err → Bool
is_offer_not_found offer_not_found = true
is_offer_not_found _ = false

abbrev pub is_policy_not_found : Err → Bool
is_policy_not_found discount_policy_not_found = true
is_policy_not_found _ = false

-- The limits of the service itself.
unfoldable pub own_limit : DiscountPolicy → Role → Result ℤ
own_limit policy manager = ok policy.manager_max_basis_points
own_limit policy supervisor = ok policy.supervisor_max_basis_points
own_limit policy _ = err offer_forbidden

-- The offer that `Create` asks the store for; the store sets the other columns.
unfoldable pub requested_offer : ℕ → ℕ → Text → OfferCalculation → Offer
requested_offer deal_id actor_id generated_text c = record {
  id = 0;
  deal_id = deal_id;
  version = 0;
  created_by = actor_id;
  base_price = c.base_price;
  discount_percent = c.discount_percent;
  final_price = c.final_price;
  parking_unit_id = c.parking_unit_id;
  parking_number = c.parking_number;
  parking_price = c.parking_price;
  storage_unit_id = c.storage_unit_id;
  storage_number = c.storage_number;
  storage_price = c.storage_price;
  generated_text = trim_space generated_text;
  status = if c.requires_approval then draft else approved;
  approval_required = c.requires_approval;
  approved_by = none;
  approved_at = none;
  rejected_by = none;
  rejected_at = none;
  rejection_reason = none;
  created_at = 0;
  updated_at = 0;
  request_id = [];
}

-- The offer that already has the request's id is served to its own actor, deal and units only.
unfoldable pub is_same_request : ℕ → ℕ → OfferSelection → Offer → Bool
is_same_request deal_id actor_id selection o =
    (o.deal_id == deal_id)
    && (o.created_by == actor_id)
    && opt_eq o.parking_unit_id selection.parking_unit_id
    && opt_eq o.storage_unit_id selection.storage_unit_id

abbrev pub still_pending : Result Offer → Result Offer → Result Offer
still_pending failed (err e) = failed
still_pending failed (ok current) =
    if is_pending_approval current.status then ok current else failed

abbrev pub or_forbidden : Result (Unit {0}) → Result (Unit {0})
or_forbidden (ok x) = ok x
or_forbidden (err e) = err offer_forbidden

abbrev pub keep : Bool → Offer → List Offer → List Offer
keep true o l = o ∷ l
keep false o l = l

abbrev pub decided_result : Result Offer → Result Offer
decided_result (ok o) = ok o
decided_result (err e) = if is_offer_not_found e then err invalid_offer_state else err e
