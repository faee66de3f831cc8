-- ===== src/Broker/Reads.antt =====
-- The cases of `Dispatch` that read deals, clients, apartments and dialogs, and the one that writes
-- a client's preferences.
use dsk_agent.Base.{◌||◌, Bool, true, false, Option, none, some, [], ◌∷◌, ◌==◌, ltb, if◌then◌else◌}
use dsk_agent.Base.Int.{ℤ, pos, ltb_ℤ}
use dsk_agent.Base.Text.{Text, codes}
use dsk_agent.Domain.Error.{Err, deal_not_found, user_not_found, apartment_not_found}
use dsk_agent.Domain.Account.{Preferences}
use dsk_agent.Domain.Rpc.{backend_rpc_success}
use dsk_agent.Broker.Codec.{
  DealGetPayload, ClientGetPayload, ApartmentGetPayload, DealMessagesGetPayload,
  ClientUpdatePreferencesPayload,
}
use dsk_agent.Broker.Replies.{deal, client, apartment, messages, preferences}
use dsk_agent.Broker.Fill.{
  deal_rpc_data, client_rpc_data, apartment_rpc_data, client_update_preferences_rpc_data,
}
use dsk_agent.Broker.Failures.{validation_error, backend_read_failure}
use dsk_agent.Broker.Interfaces.{Dispatcher, Response, Handler, respond, call}

abbrev pub invalid_payload : {F : Type 0} → Text → Response F
invalid_payload request_id = validation_error request_id (codes "Invalid RPC payload")

abbrev pub no_members : Preferences → Bool
no_members [] = true
no_members (m ∷ l) = false

-- `len(preferences) == 0` or nil, without a budget.
abbrev pub nothing_to_update : Option ℤ → Option Preferences → Bool
nothing_to_update budget_max none = true
nothing_to_update none (some p) = no_members p
nothing_to_update (some b) (some p) = false

abbrev pub is_negative : Option ℤ → Bool
is_negative none = false
is_negative (some b) = ltb_ℤ b (pos 0)

abbrev pub or_nil : Option Preferences → Preferences
or_nil none = []
or_nil (some p) = p

module _ {F : Type 0} (d : Dispatcher F) (request_id : Text) where
  abbrev pub deal_failure : Err → Response F
  deal_failure e =
      backend_read_failure request_id e (some deal_not_found) (codes "DEAL_NOT_FOUND")
        (codes "Deal not found")

  abbrev pub client_failure : Err → Response F
  client_failure e =
      backend_read_failure request_id e (some user_not_found) (codes "CLIENT_NOT_FOUND")
        (codes "Client not found")

  unfoldable pub deal_get_case : Option DealGetPayload → Handler F
  deal_get_case none = respond (invalid_payload request_id)
  deal_get_case (some p) =
      if p.deal_id == 0
      then respond (validation_error request_id (codes "deal_id must be a positive integer"))
      else call (d.get_deal_by_id p.deal_id) deal_failure
          (λ found. respond (backend_rpc_success request_id (deal (deal_rpc_data found))))

  unfoldable pub client_get_case : Option ClientGetPayload → Handler F
  client_get_case none = respond (invalid_payload request_id)
  client_get_case (some p) =
      if p.client_id == 0
      then respond (validation_error request_id (codes "client_id must be a positive integer"))
      else call (d.get_user p.client_id) client_failure
          (λ found. respond (backend_rpc_success request_id (client (client_rpc_data found))))

  unfoldable pub apartment_get_case : Option ApartmentGetPayload → Handler F
  apartment_get_case none = respond (invalid_payload request_id)
  apartment_get_case (some p) =
      if p.apartment_id == 0
      then respond (validation_error request_id (codes "apartment_id must be a positive integer"))
      else call (d.construction.get_apartment_by_id p.apartment_id)
          (λ e.
            backend_read_failure request_id e (some apartment_not_found)
              (codes "APARTMENT_NOT_FOUND") (codes "Apartment not found"))
          (λ found. respond (backend_rpc_success request_id (apartment (apartment_rpc_data found))))

  unfoldable pub deal_messages_get_case : Option DealMessagesGetPayload → Handler F
  deal_messages_get_case none = respond (invalid_payload request_id)
  deal_messages_get_case (some p) =
      if (p.deal_id == 0) || (p.limit == 0) || ltb 100 p.limit
      then respond (
          validation_error request_id
            (codes "deal_id must be positive and limit must be between 1 and 100"))
      else call (d.get_deal_messages p.deal_id p.limit) deal_failure
          (λ found. respond (backend_rpc_success request_id (messages found)))

  unfoldable pub client_update_preferences_case : Option ClientUpdatePreferencesPayload → Handler F
  client_update_preferences_case none = respond (invalid_payload request_id)
  client_update_preferences_case (some p) =
      if (p.client_id == 0) || nothing_to_update p.budget_max p.preferences
      then respond (
          validation_error request_id
            (codes "client_id and at least one preference value are required"))
      else if is_negative p.budget_max
      then respond (validation_error request_id (codes "budget_max must be non-negative"))
      else call (d.update_client_preferences p.client_id p.budget_max (or_nil p.preferences))
          client_failure
          (λ updated. respond (
            backend_rpc_success request_id
              (preferences (client_update_preferences_rpc_data updated))))
