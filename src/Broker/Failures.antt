-- ===== src/Broker/Failures.antt =====
-- The responses to errors. `errors.Is` compares an error with a sentinel.
use dsk_agent.Base.{ℕ, Bool, false, ◌||◌, Option, none, some, ◌==◌, if◌then◌else◌}
use dsk_agent.Base.Text.{Text, codes}
use dsk_agent.Domain.Error.{
  canceled, deadline_exceeded, Err, deal_not_found, offer_not_found, apartment_not_found,
  user_not_found, building_not_found, complex_not_found, invalid_discount, invalid_offer_state,
  offer_forbidden, invalid_price, fault,
}
use dsk_agent.Domain.Rpc.{BackendRpcResponse, backend_rpc_failure}

-- The number of a sentinel that the broker looks for, and 0 for every other error.
abbrev pub sentinel : Err → ℕ
sentinel offer_not_found = 1
sentinel deal_not_found = 2
sentinel apartment_not_found = 3
sentinel user_not_found = 4
sentinel invalid_discount = 5
sentinel invalid_price = 6
sentinel invalid_offer_state = 7
sentinel offer_forbidden = 8
sentinel building_not_found = 9
sentinel complex_not_found = 10
sentinel (fault canceled) = 11
sentinel (fault deadline_exceeded) = 12
sentinel _ = 0

-- `errors.Is(err, target)`, for one of those targets.
abbrev pub error_is : Err → Err → Bool
error_is e target = sentinel e == sentinel target

abbrev pub is_unavailable : Err → Bool
is_unavailable e = error_is e (fault canceled) || error_is e (fault deadline_exceeded)

-- No error is a nil target.
abbrev pub is_not_found : Err → Option Err → Bool
is_not_found e none = false
is_not_found e (some target) = error_is e target

module _ {D : Type 0} where
  abbrev pub validation_error : Text → Text → BackendRpcResponse D
  validation_error request_id message =
      backend_rpc_failure request_id (codes "VALIDATION_ERROR") message

  -- `backendReadFailure`.
  unfoldable pub backend_read_failure : Text → Err → Option Err → Text → Text → BackendRpcResponse D
  backend_read_failure request_id e not_found not_found_code not_found_message =
      if is_not_found e not_found
      then backend_rpc_failure request_id not_found_code not_found_message
      else if is_unavailable e
      then backend_rpc_failure request_id (codes "BACKEND_UNAVAILABLE")
          (codes "Backend unavailable")
      else backend_rpc_failure request_id (codes "INTERNAL_ERROR")
          (codes "Backend operation failed")

  -- `offerFailure`.
  unfoldable pub offer_failure : Text → Err → BackendRpcResponse D
  offer_failure request_id e =
      if error_is e offer_not_found
      then backend_rpc_failure request_id (codes "OFFER_NOT_FOUND") (codes "Offer not found")
      else if error_is e deal_not_found
      then backend_rpc_failure request_id (codes "DEAL_NOT_FOUND") (codes "Deal not found")
      else if error_is e apartment_not_found
      then backend_rpc_failure request_id (codes "APARTMENT_NOT_FOUND")
          (codes "Apartment not found")
      else if error_is e user_not_found
      then backend_rpc_failure request_id (codes "USER_NOT_FOUND") (codes "User not found")
      else if error_is e invalid_discount || error_is e invalid_price
      then backend_rpc_failure request_id (codes "INVALID_DISCOUNT")
          (codes "Discount or apartment price is invalid")
      else if error_is e invalid_offer_state
      then backend_rpc_failure request_id (codes "INVALID_OFFER_STATE")
          (codes "Offer state does not allow this operation")
      else if error_is e offer_forbidden
      then backend_rpc_failure request_id (codes "FORBIDDEN")
          (codes "User is not allowed to perform this offer operation")
      else if is_unavailable e
      then backend_rpc_failure request_id (codes "BACKEND_UNAVAILABLE")
          (codes "Backend unavailable")
      else backend_rpc_failure request_id (codes "INTERNAL_ERROR")
          (codes "Backend operation failed")
