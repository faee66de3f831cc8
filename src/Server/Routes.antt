-- ===== src/Server/Routes.antt =====
-- The tables of routes of backend/cmd/staff_server/main.go and backend/cmd/user_server/main.go.
use dsk_agent.Base.{List, [], ◌∷◌}
use dsk_agent.Base.Text.{Text, codes}
use dsk_agent.Server.{
  Method, get, post, put, delete, Guard, auth, optional_auth, staff_role, supervisor_role, Endpoint,
  Route, chat_create, chat_mine, chat_all, chat_get, chat_take, chat_close, chat_reject, chat_send,
  chat_messages, chat_delete, deal_create, deal_mine, deal_all, deal_get, deal_status, offer_list,
  offer_get, offer_calculate, offer_create, offer_request, offer_approve, offer_reject, offer_pdf,
  offer_send, profile, staff_create, ai_chat, ai_analyze, ai_reply, register, login, staff_login,
  logout, user_list, user_get, user_me, user_update, notice_list, notice_read, notice_read_all,
  reminder_list, reminder_create, reminder_complete, competitor_list, competitor_create,
  competitor_update, erp_list, erp_event, erp_stock, erp_schedule, policy_list, policy_create,
  complex_create, complex_all, complex_get, complex_update, building_create, building_get,
  buildings_of, building_update, apartment_create, apartment_get, apartments_of, apartment_update,
  progress_create, progress_get, progress_of, progress_update, unit_list, unit_create, unit_update,
}

abbrev pub signed_in : List Guard
signed_in = auth ∷ []

abbrev pub staff_only : List Guard
staff_only = auth ∷ staff_role ∷ []

abbrev pub supervisor_only : List Guard
supervisor_only = auth ∷ staff_role ∷ supervisor_role ∷ []

abbrev route : Method → Text → List Guard → Endpoint → Route
route method path guards endpoint = record {
  method = method;
  path = path;
  guards = guards;
  endpoint = endpoint;
}

-- The routes without middleware, two of the staff server and then those of the user server, and the
-- routes with middleware of each server.
unfoldable pub public_routes : List Route
public_routes =
    route post (codes "/api/auth/login") [] staff_login
    ∷ route post (codes "/api/auth/logout") [] logout
    ∷ route post (codes "/api/auth/register") [] register
    ∷ route post (codes "/api/auth/login") [] login
    ∷ route post (codes "/api/auth/logout") [] logout
    ∷ route get (codes "/api/complexes") [] complex_all
    ∷ route get (codes "/api/complexes/{id}") [] complex_get
    ∷ route get (codes "/api/complexes/{complexId}/buildings") [] buildings_of
    ∷ route get (codes "/api/buildings/{id}") [] building_get
    ∷ route get (codes "/api/buildings/{buildingId}/apartments") [] apartments_of
    ∷ route get (codes "/api/buildings/{buildingId}/progress") [] progress_of
    ∷ route get (codes "/api/buildings/{buildingId}/ancillary-units") [] unit_list
    ∷ route get (codes "/api/apartments/{id}") [] apartment_get
    ∷ route get (codes "/api/progress/{id}") [] progress_get
    ∷ []

unfoldable pub staff_routes : List Route
staff_routes =
    route get (codes "/api/staff/profile") staff_only profile
    ∷ route post (codes "/api/auth/register") supervisor_only staff_create
    ∷ route get (codes "/api/users") staff_only user_list
    ∷ route get (codes "/api/users/{id}") staff_only user_get
    ∷ route get (codes "/api/chat/sessions") staff_only chat_all
    ∷ route get (codes "/api/chat/sessions/{id}") staff_only chat_get
    ∷ route post (codes "/api/chat/sessions/{id}/take") staff_only chat_take
    ∷ route post (codes "/api/chat/sessions/{id}/close") staff_only chat_close
    ∷ route post (codes "/api/chat/sessions/{id}/reject") staff_only chat_reject
    ∷ route get (codes "/api/chat/sessions/{id}/messages") staff_only chat_messages
    ∷ route post (codes "/api/chat/sessions/{id}/messages") staff_only chat_send
    ∷ route post (codes "/api/deals") staff_only deal_create
    ∷ route get (codes "/api/deals") staff_only deal_all
    ∷ route get (codes "/api/deals/{id}") staff_only deal_get
    ∷ route put (codes "/api/deals/{id}/status") staff_only deal_status
    ∷ route get (codes "/api/offers") staff_only offer_list
    ∷ route get (codes "/api/offers/{id}") staff_only offer_get
    ∷ route post (codes "/api/offers/calculate") staff_only offer_calculate
    ∷ route post (codes "/api/offers") staff_only offer_create
    ∷ route post (codes "/api/offers/{id}/approval-request") staff_only offer_request
    ∷ route post (codes "/api/offers/{id}/approve") supervisor_only offer_approve
    ∷ route post (codes "/api/offers/{id}/reject") supervisor_only offer_reject
    ∷ route get (codes "/api/offers/{id}/pdf") staff_only offer_pdf
    ∷ route post (codes "/api/offers/{id}/send") staff_only offer_send
    ∷ route post (codes "/api/ai/chat") staff_only ai_chat
    ∷ route post (codes "/api/ai/dialog/analyze") staff_only ai_analyze
    ∷ route post (codes "/api/ai/dialog/reply-assist") staff_only ai_reply
    ∷ route get (codes "/api/competitors") staff_only competitor_list
    ∷ route post (codes "/api/competitors") supervisor_only competitor_create
    ∷ route put (codes "/api/competitors/{id}") supervisor_only competitor_update
    ∷ route post (codes "/api/complexes") staff_only complex_create
    ∷ route get (codes "/api/complexes") staff_only complex_all
    ∷ route get (codes "/api/complexes/{id}") staff_only complex_get
    ∷ route put (codes "/api/complexes/{id}") supervisor_only complex_update
    ∷ route get (codes "/api/complexes/{complexId}/buildings") staff_only buildings_of
    ∷ route post (codes "/api/buildings") staff_only building_create
    ∷ route get (codes "/api/buildings/{id}") staff_only building_get
    ∷ route put (codes "/api/buildings/{id}") supervisor_only building_update
    ∷ route get (codes "/api/buildings/{buildingId}/apartments") staff_only apartments_of
    ∷ route get (codes "/api/buildings/{buildingId}/progress") staff_only progress_of
    ∷ route post (codes "/api/apartments") staff_only apartment_create
    ∷ route get (codes "/api/apartments/{id}") staff_only apartment_get
    ∷ route put (codes "/api/apartments/{id}") supervisor_only apartment_update
    ∷ route post (codes "/api/progress") staff_only progress_create
    ∷ route get (codes "/api/progress/{id}") staff_only progress_get
    ∷ route put (codes "/api/progress/{id}") supervisor_only progress_update
    ∷ route get (codes "/api/buildings/{buildingId}/discount-policies") staff_only policy_list
    ∷ route post (codes "/api/discount-policies") supervisor_only policy_create
    ∷ route get (codes "/api/buildings/{buildingId}/ancillary-units") staff_only unit_list
    ∷ route post (codes "/api/ancillary-units") staff_only unit_create
    ∷ route put (codes "/api/ancillary-units/{id}") supervisor_only unit_update
    ∷ route get (codes "/api/buildings/{buildingId}/erp") staff_only erp_list
    ∷ route post (codes "/api/erp/events") staff_only erp_event
    ∷ route post (codes "/api/erp/material-stocks") staff_only erp_stock
    ∷ route post (codes "/api/erp/production-schedules") staff_only erp_schedule
    ∷ route get (codes "/api/reminders") staff_only reminder_list
    ∷ route post (codes "/api/reminders") staff_only reminder_create
    ∷ route put (codes "/api/reminders/{id}/complete") staff_only reminder_complete
    ∷ []

unfoldable pub user_routes : List Route
user_routes =
    route post (codes "/api/chat/sessions") (optional_auth ∷ []) chat_create
    ∷ route get (codes "/api/auth/profile") signed_in profile
    ∷ route get (codes "/api/users/me") signed_in user_me
    ∷ route put (codes "/api/users/me") signed_in user_update
    ∷ route get (codes "/api/notifications") signed_in notice_list
    ∷ route put (codes "/api/notifications/read-all") signed_in notice_read_all
    ∷ route put (codes "/api/notifications/{id}/read") signed_in notice_read
    ∷ route get (codes "/api/chat/sessions") signed_in chat_mine
    ∷ route get (codes "/api/chat/sessions/{id}") signed_in chat_get
    ∷ route delete (codes "/api/chat/sessions/{id}") signed_in chat_delete
    ∷ route get (codes "/api/chat/sessions/{id}/messages") signed_in chat_messages
    ∷ route post (codes "/api/chat/sessions/{id}/messages") signed_in chat_send
    ∷ route get (codes "/api/deals") signed_in deal_mine
    ∷ route get (codes "/api/deals/{id}") signed_in deal_get
    ∷ route put (codes "/api/deals/{id}/status") signed_in deal_status
    ∷ route get (codes "/api/offers") signed_in offer_list
    ∷ route get (codes "/api/offers/{id}") signed_in offer_get
    ∷ route get (codes "/api/offers/{id}/pdf") signed_in offer_pdf
    ∷ route post (codes "/api/ai/chat") signed_in ai_chat
    ∷ []
