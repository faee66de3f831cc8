-- ===== src/Server/Run.antt =====
-- A request on a route: its middleware and its handler.
use dsk_agent.Base.{true, Option, none, List, [], ◌∷◌}
use dsk_agent.Base.Text.{Text}
use dsk_agent.Domain.Account.{User}
use dsk_agent.AuthService.{Claims}
use dsk_agent.Http.{Response, written, refusal, Handler, refuse}
use dsk_agent.Db.{◌>>=◌, pure}
use dsk_agent.ChatHandler as Chat
use dsk_agent.DealHandler as Deals
use dsk_agent.OfferHandler as Offers
use dsk_agent.OfferHandler.{CreateOfferRequest, CalculateOfferRequest}
use dsk_agent.AuthHandler as Auth
use dsk_agent.AuthHandler.{RegisterRequest, LoginRequest, Credentials}
use dsk_agent.AiHandler as Ai
use dsk_agent.AiHandler.Dialog as Dialog
use dsk_agent.UserHandler as Users
use dsk_agent.NoticeHandler as Notices
use dsk_agent.CatalogueHandler as Catalogue
use dsk_agent.ConstructionHandler as Houses
use dsk_agent.AncillaryHandler as Units
use dsk_agent.Server.{
  Guard, auth, optional_auth, staff_role, supervisor_role, Endpoint, Route, Request, Deps,
  chat_create, chat_mine, chat_all, chat_get, chat_take, chat_close, chat_reject, chat_send,
  chat_messages, chat_delete, deal_create, deal_mine, deal_all, deal_get, deal_status, offer_list,
  offer_get, offer_calculate, offer_create, offer_request, offer_approve, offer_reject, offer_pdf,
  offer_send, profile, staff_create, ai_chat, ai_analyze, ai_reply, register, login, staff_login,
  logout, user_list, user_get, user_me, user_update, notice_list, notice_read, notice_read_all,
  reminder_list, reminder_create, reminder_complete, competitor_list, competitor_create,
  competitor_update, erp_list, erp_event, erp_stock, erp_schedule, policy_list, policy_create,
  complex_create, complex_all, complex_get, complex_update, building_create, building_get,
  buildings_of, building_update, apartment_create, apartment_get, apartments_of, apartment_update,
  progress_create, progress_get, progress_of, progress_update, unit_list, unit_create, unit_update,
}

abbrev pub without_value : {F A : Type 0} → Response A → Handler F (Unit {0})
without_value (written n a) = pure (written n tt)
without_value (refusal r) = refuse r

module _ {F : Type 0} where
  -- The answer without its value.
  abbrev pub sealed : {A : Type 0} → Handler F A → Handler F (Unit {0})
  sealed h = h >>= without_value

  -- The handler of an endpoint.
  unfoldable pub serve : Deps F → Request F → Endpoint → Option User → Handler F (Unit {0})
  serve d q chat_create u = sealed (Chat.create_session u q.session)
  serve d q chat_mine u = sealed (Chat.get_my_sessions u)
  serve d q chat_all u = sealed (Chat.get_all_sessions u q.session_status q.employee_id)
  serve d q chat_get u = sealed (Chat.get_session u q.id)
  serve d q chat_take u = sealed (Chat.take_session u q.id)
  serve d q chat_close u = sealed (Chat.close_session u q.id)
  serve d q chat_reject u = sealed (Chat.reject_session u q.id q.text)
  serve d q chat_send u = sealed (Chat.send_message u q.id q.text)
  serve d q chat_messages u = sealed (Chat.get_messages u q.id)
  serve d q chat_delete u = sealed (Chat.delete_session u q.id)
  serve d q deal_create u = sealed (Deals.create_deal d.floats d.settings u q.new_deal)
  serve d q deal_mine u = sealed (Deals.get_my_deals u)
  serve d q deal_all u = sealed (Deals.get_all_deals u q.deal_status q.user_id)
  serve d q deal_get u = sealed (Deals.get_deal u q.id)
  serve d q deal_status u =
      sealed (Deals.update_deal_status d.floats d.settings u q.id q.deal_update)
  serve d q offer_list u = sealed (Offers.list u)
  serve d q offer_get u = sealed (Offers.get u q.id)
  serve d q offer_calculate u = sealed (Offers.calculate d.policy u q.calculation)
  serve d q offer_create u = sealed (Offers.create d.policy u q.new_offer)
  serve d q offer_request u = sealed (Offers.request_approval u q.id)
  serve d q offer_approve u = sealed (Offers.approve u q.id)
  serve d q offer_reject u = sealed (Offers.reject u q.id q.text)
  serve d q offer_pdf u = sealed (Offers.pdf d.build d.checksum true u q.id)
  serve d q offer_send u = sealed (Offers.send d.build d.checksum true u q.id)
  serve d q profile u = sealed (Auth.profile u)
  serve d q staff_create u = sealed (Auth.create_staff d.generate q.registration)
  serve d q ai_chat u = sealed (Ai.chat true d.error_text d.ask u q.question)
  serve d q ai_analyze u = sealed (Dialog.analyze true d.error_text d.ask_analysis u q.dialog)
  serve d q ai_reply u = sealed (Dialog.reply_assist true d.error_text d.ask_reply u q.reply)
  serve d q register u = sealed (Auth.register d.generate q.registration)
  serve d q login u = sealed (Auth.login d.matches d.sign q.login)
  serve d q staff_login u = sealed (Auth.login_staff d.matches d.sign q.login)
  serve d q logout u = sealed Auth.logout
  serve d q user_list u = sealed (Users.get_users u)
  serve d q user_get u = sealed (Users.get_user u q.id)
  serve d q user_me u = sealed (Users.get_me u)
  serve d q user_update u = sealed (Users.update_me d.generate d.matches d.sign u q.change)
  serve d q notice_list u = sealed (Notices.get_my_notifications u q.unread_only)
  serve d q notice_read u = sealed (Notices.mark_as_read u q.id)
  serve d q notice_read_all u = sealed (Notices.mark_all_as_read u)
  serve d q reminder_list u = sealed (Notices.list_reminders u)
  serve d q reminder_create u = sealed (Notices.create_reminder u q.reminder)
  serve d q reminder_complete u = sealed (Notices.complete_reminder u q.id)
  serve d q competitor_list u = sealed Catalogue.list_competitors
  serve d q competitor_create u = sealed (Catalogue.create_competitor q.competitor)
  serve d q competitor_update u = sealed (Catalogue.update_competitor q.id q.competitor)
  serve d q erp_list u = sealed (Catalogue.list_erp q.building_id)
  serve d q erp_event u = sealed (Catalogue.create_event d.now q.event)
  serve d q erp_stock u = sealed (Catalogue.upsert_stock d.floats q.stock)
  serve d q erp_schedule u = sealed (Catalogue.create_schedule q.schedule)
  serve d q policy_list u = sealed (Catalogue.list_policies q.building_id)
  serve d q policy_create u = sealed (Catalogue.create_policy d.floats u q.new_policy)
  serve d q complex_create u = sealed (Houses.create_complex q.complex)
  serve d q complex_all u = sealed Houses.get_all_complexes
  serve d q complex_get u = sealed (Houses.get_complex q.id)
  serve d q complex_update u = sealed (Houses.update_complex q.id q.complex)
  serve d q building_create u = sealed (Houses.create_building q.building)
  serve d q building_get u = sealed (Houses.get_building d.floats.zero q.id)
  serve d q buildings_of u = sealed (Houses.get_buildings_by_complex d.floats.zero q.complex_id)
  serve d q building_update u = sealed (Houses.update_building q.id q.building)
  serve d q apartment_create u = sealed (Houses.create_apartment d.floats q.apartment)
  serve d q apartment_get u = sealed (Houses.get_apartment q.id)
  serve d q apartments_of u = sealed (Houses.get_apartments_by_building q.building_id)
  serve d q apartment_update u = sealed (Houses.update_apartment d.floats q.id q.apartment)
  serve d q progress_create u = sealed (Houses.create_progress q.progress)
  serve d q progress_get u = sealed (Houses.get_progress q.id)
  serve d q progress_of u = sealed (Houses.get_progress_by_building q.building_id)
  serve d q progress_update u = sealed (Houses.update_progress q.id q.progress)
  serve d q unit_list u = sealed (Units.list q.building_id)
  serve d q unit_create u = sealed (Units.create q.unit)
  serve d q unit_update u = sealed (Units.update q.id q.unit)

  -- The middleware of a route, in its order.
  unfoldable pub run_guards :
      {A : Type 0}
      → (Text → Option Claims)
      → Credentials
      → List Guard
      → (Option User → Handler F A)
      → Option User
      → Handler F A
  run_guards parse c [] next u = next u
  run_guards parse c (auth ∷ gs) next u = Auth.auth_middleware parse c (run_guards parse c gs next)
  run_guards parse c (optional_auth ∷ gs) next u =
      Auth.optional_auth_middleware parse c (run_guards parse c gs next)
  run_guards parse c (staff_role ∷ gs) next u =
      Auth.require_staff_role (run_guards parse c gs next) u
  run_guards parse c (supervisor_role ∷ gs) next u =
      Auth.require_supervisor_role (run_guards parse c gs next) u

  -- A request on a route: no user is known before the middleware.
  unfoldable pub handle : Deps F → Route → Request F → Handler F (Unit {0})
  handle d r q = run_guards d.parse q.credentials r.guards (serve d q r.endpoint) none
