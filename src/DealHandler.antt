-- ===== src/DealHandler.antt =====
-- The handlers of backend/internal/handler/deal.go. A status of the query or of the body may be any
-- text; the employee and the user of the query are ids.
use dsk_agent.Base.{ℕ, Bool, not, ◌&&◌, ◌||◌, Option, none, some, List, ◌==◌, if◌then◌else◌}
use dsk_agent.Base.Text.{codes}
use dsk_agent.Base.Floats.{Floats}
use dsk_agent.Domain.Error.{
  Err, deal_forbidden, apartment_unavailable, discount_approval_required, invalid_deal_data,
}
use dsk_agent.Domain.Account.{User, is_user, is_manager, is_supervisor}
use dsk_agent.Domain.Deal.{Deal, DealStatus, CreateDealRequest, UpdateDealStatusRequest}
use dsk_agent.Db.{pure}
use dsk_agent.DealService.{Settings}
use dsk_agent.DealService as Service
use dsk_agent.Http.{
  Refusal, Response, http_error, http_cause, written, refusal, forbidden, unauthorized, bad_body,
  says_not_found, Handler, refuse, on_value, need, call, reply,
}

-- The status for an error of `CreateDeal`, and for one of `UpdateDealStatus`.
unfoldable pub create_status : Err → ℕ
create_status deal_forbidden = 403
create_status apartment_unavailable = 409
create_status discount_approval_required = 409
create_status invalid_deal_data = 400
create_status _ = 500

unfoldable pub update_status : Err → ℕ
update_status deal_forbidden = 403
update_status discount_approval_required = 409
update_status invalid_deal_data = 400
update_status e = if says_not_found e then 404 else 500

abbrev bad_deal_id : Refusal
bad_deal_id = http_error 400 (codes "invalid deal id")

-- Whether `GetDeal` refuses the user.
unfoldable pub is_refused : {F : Type 0} → User → Deal F → Bool
is_refused u deal =
    (is_user u.role && not (deal.user_id == u.id))
    || (is_manager u.role && not (deal.employee_id == u.id))

-- Whose deals `GetAllDeals` lists: a manager's own, and for a supervisor all.
unfoldable pub employee_filter : User → Response (Option ℕ)
employee_filter u =
    if is_manager u.role
    then written 200 (some u.id)
    else if not (is_supervisor u.role)
    then refusal forbidden
    else written 200 none

module _ {F : Type 0} where
  module _ (fl : Floats F) (settings : Settings F) where
    -- `CreateDeal`.
    unfoldable pub create_deal : Option User → Option (CreateDealRequest F) → Handler F (Deal F)
    unfolding create_status
    create_deal u body = need u unauthorized λ v. need body bad_body λ req.
        reply 201 (Service.create_deal fl settings req (some v)) λ e. http_cause (create_status e) e

    -- `UpdateDealStatus`.
    unfoldable pub update_deal_status :
        Option User → Option ℕ → Option (UpdateDealStatusRequest F) → Handler F (Deal F)
    unfolding update_status
    update_deal_status u raw body = need raw bad_deal_id λ id. need body bad_body λ req.
        reply 200 (Service.update_deal_status fl settings id req u)
          λ e. http_cause (update_status e) e

  -- `GetDeal`.
  unfoldable pub get_deal : Option User → Option ℕ → Handler F (Deal F)
  unfolding is_refused
  get_deal u raw = need raw bad_deal_id λ id.
      call (Service.get_deal_by_id id) (http_cause 404) λ deal.
        need u unauthorized
          λ v. if is_refused v deal then refuse forbidden else pure (written 200 deal)

  -- `GetMyDeals`.
  unfoldable pub get_my_deals : Option User → Handler F (List (Deal F))
  get_my_deals u =
      need u unauthorized λ v. reply 200 (Service.get_deals (some v.id) none none) (http_cause 500)

  -- `GetAllDeals`; a user of the query that is no number is passed over.
  unfoldable pub get_all_deals :
      Option User → Option DealStatus → Option ℕ → Handler F (List (Deal F))
  unfolding employee_filter
  get_all_deals u status user_id = need u unauthorized λ v.
      on_value
        (λ employee_id. reply 200 (Service.get_deals user_id employee_id status) (http_cause 500))
        (employee_filter v)
