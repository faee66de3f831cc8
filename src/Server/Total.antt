-- ===== src/Server/Total.antt =====
-- Every handler that a route leads to answers every request (backend/cmd).
use dsk_agent.Base.{ℕ, ◌≡◌, ap, Bool, true, false, Option, none, some, arith, inl, inr}
use dsk_agent.Base.Text.{Text}
use dsk_agent.Domain.Error.{ok}
use dsk_agent.Domain.Account.{User}
use dsk_agent.Domain.Chat.{ChatSession}
use dsk_agent.Domain.Offer.{OfferDelivery}
use dsk_agent.Db.{World, Store, ◌>>=◌}
use dsk_agent.Db.Laws.{answer-cases, bind-run}
use dsk_agent.Http.{Handler, Response, written, refusal, on_value}
use dsk_agent.Http.Answered.{Answers, IsResponse, IsAnswer, Answers-value, answering}
use dsk_agent.ChatHandler as Chat
use dsk_agent.DealHandler as Deals
use dsk_agent.OfferHandler as Offers
use dsk_agent.AuthHandler as Auth
use dsk_agent.UserHandler as Users
use dsk_agent.NoticeHandler as Notices
use dsk_agent.CatalogueHandler as Catalogue
use dsk_agent.ConstructionHandler as Houses
use dsk_agent.AncillaryHandler as Units
use dsk_agent.AiHandler.Answered.{chat-Answers, analyze-Answers, reply_assist-Answers}
use dsk_agent.OfferHandler.{offer_status}
use dsk_agent.Server.{
  Endpoint, Deps, Request, chat_create, chat_mine, chat_all, chat_get, chat_take, chat_close,
  chat_reject, chat_send, chat_messages, chat_delete, deal_create, deal_mine, deal_all, deal_get,
  deal_status, offer_list, offer_get, offer_calculate, offer_create, offer_request, offer_approve,
  offer_reject, offer_pdf, offer_send, profile, staff_create, ai_chat, ai_analyze, ai_reply,
  register, login, staff_login, logout, user_list, user_get, user_me, user_update, notice_list,
  notice_read, notice_read_all, reminder_list, reminder_create, reminder_complete, competitor_list,
  competitor_create, competitor_update, erp_list, erp_event, erp_stock, erp_schedule, policy_list,
  policy_create, complex_create, complex_all, complex_get, complex_update, building_create,
  building_get, buildings_of, building_update, apartment_create, apartment_get, apartments_of,
  apartment_update, progress_create, progress_get, progress_of, progress_update, unit_list,
  unit_create, unit_update,
}
use dsk_agent.Server.Statuses.{status_bounds}
use dsk_agent.Server.Run.{serve, sealed, without_value}

-- What a guest may ask for.
abbrev pub is_open : Endpoint → Bool
is_open chat_create = true
is_open register = true
is_open login = true
is_open staff_login = true
is_open logout = true
is_open complex_all = true
is_open complex_get = true
is_open buildings_of = true
is_open building_get = true
is_open apartments_of = true
is_open progress_of = true
is_open apartment_get = true
is_open progress_get = true
is_open unit_list = true
is_open _ = false

module _ {F : Type 0} {A B : Type 0} where
  -- An answer of the first part goes on to an answer.
  answered :
      (r : Response A) (k : Response A → Handler F B) (w : World F) (s s1 : Store F)
      (h : Handler F A)
      → h w s ≡ (ok r, s1)
      → Answers h
      → ((x : Response A) → IsResponse x → Answers (k x))
      → IsAnswer ((h >>= k) w s).0
  answered r k w s s1 h e p q = rw (bind-run h k w s e) (q r (rw (ap (λ x. x.0) e) at (p w s)) w s1)

  Answers-then :
      (h : Handler F A) (k : Response A → Handler F B)
      → Answers h
      → ((x : Response A) → IsResponse x → Answers (k x))
      → Answers (h >>= k)
  Answers-then h k p q w s = elim (answer-cases (h w s)) [
    | inl (r, s1, e) ↦ answered r k w s s1 h e p q
    | inr (x, s1, e) ↦ absurd (rw (ap (λ y. y.0) e) at (p w s))
  ]

find-Answers :
    {F : Type 0} (u : Option User) (id : ℕ) (manage : Bool)
    → Answers {F = F} (Chat.find_authorized_session u id manage)
unfolding Chat.find_authorized_session
find-Answers u id manage = search answering

delivered-Answers :
    {F : Type 0} (x : OfferDelivery) (text : Option Text)
    → Answers {F = F} (Offers.delivered x text)
unfolding Offers.delivered
delivered-Answers x none = search answering
delivered-Answers x (some text) = search answering

module _ {F : Type 0} {A : Type 0} where
  without_value-Answers : (x : Response A) → IsResponse x → Answers (without_value {F = F} x)
  without_value-Answers (written n a) fine w s = fine
  without_value-Answers (refusal r) fine w s = fine

  Answers-sealed : (h : Handler F A) → Answers h → Answers (sealed h)
  Answers-sealed h p = Answers-then h without_value p without_value-Answers

  Answers-authorized :
      (u : Option User) (id : ℕ) (manage : Bool) (f : ChatSession → Handler F A)
      → ((cs : ChatSession) → Answers (f cs))
      → Answers (Chat.authorized u id manage f)
  Answers-authorized u id manage f p =
      Answers-then (Chat.find_authorized_session u id manage) (on_value f)
        (find-Answers u id manage) (λ x fine. Answers-value x f fine p)

ruleset statuses = (status_bounds, answering, Answers-authorized, delivered-Answers, find-Answers)

module _ {F : Type 0} (d : Deps F) (q : Request F) where
  -- A handler answers every request of a user.
  pub serve-Answers : (e : Endpoint) (v : User) → Answers (serve d q e (some v))
  unfolding serve Chat.create_session Chat.get_my_sessions Chat.get_all_sessions Chat.get_session
      Chat.take_session Chat.close_session Chat.reject_session Chat.send_message Chat.get_messages
      Chat.delete_session Deals.create_deal Deals.get_my_deals Deals.get_all_deals Deals.get_deal
      Deals.update_deal_status Offers.list Offers.get Offers.calculate Offers.create
      Offers.request_approval Offers.approve Offers.reject Offers.pdf Offers.send Auth.profile
      Auth.create_staff Auth.register Auth.login Auth.login_staff Auth.logout Users.get_users
      Users.get_user Users.get_me Users.update_me Notices.get_my_notifications Notices.mark_as_read
      Notices.mark_all_as_read Notices.list_reminders Notices.create_reminder
      Notices.complete_reminder Catalogue.list_competitors Catalogue.create_competitor
      Catalogue.update_competitor Catalogue.list_erp Catalogue.create_event Catalogue.upsert_stock
      Catalogue.create_schedule Catalogue.list_policies Catalogue.create_policy
      Houses.create_complex Houses.get_all_complexes Houses.get_complex Houses.update_complex
      Houses.create_building Houses.get_building Houses.get_buildings_by_complex
      Houses.update_building Houses.create_apartment Houses.get_apartment
      Houses.get_apartments_by_building Houses.update_apartment Houses.create_progress
      Houses.get_progress Houses.get_progress_by_building Houses.update_progress Units.list
      Units.create Units.update
  serve-Answers chat_create v = search (statuses, Answers-sealed)
  serve-Answers chat_mine v = search (statuses, Answers-sealed)
  serve-Answers chat_all v = search (statuses, Answers-sealed)
  serve-Answers chat_get v = search (statuses, Answers-sealed)
  serve-Answers chat_take v = search (statuses, Answers-sealed)
  serve-Answers chat_close v = search (statuses, Answers-sealed)
  serve-Answers chat_reject v = search (statuses, Answers-sealed)
  serve-Answers chat_send v = search (statuses, Answers-sealed)
  serve-Answers chat_messages v = search (statuses, Answers-sealed)
  serve-Answers chat_delete v = search (statuses, Answers-sealed)
  serve-Answers deal_create v = search (statuses, Answers-sealed)
  serve-Answers deal_mine v = search (statuses, Answers-sealed)
  serve-Answers deal_all v = search (statuses, Answers-sealed)
  serve-Answers deal_get v = search (statuses, Answers-sealed)
  serve-Answers deal_status v = search (statuses, Answers-sealed)
  serve-Answers offer_list v = search (statuses, Answers-sealed)
  serve-Answers offer_get v = search (statuses, Answers-sealed)
  serve-Answers offer_calculate v = search (statuses, Answers-sealed)
  serve-Answers offer_create v = search (statuses, Answers-sealed)
  serve-Answers offer_request v = search (statuses, Answers-sealed)
  serve-Answers offer_approve v = search (statuses, Answers-sealed)
  serve-Answers offer_reject v = search (statuses, Answers-sealed)
  serve-Answers offer_pdf v = search (statuses, Answers-sealed)
  serve-Answers offer_send v = search (statuses, Answers-sealed)
  serve-Answers profile v = search (statuses, Answers-sealed)
  serve-Answers staff_create v = search (statuses, Answers-sealed)
  serve-Answers ai_chat v =
      Answers-sealed _ (chat-Answers true d.error_text d.ask (some v) q.question)
  serve-Answers ai_analyze v =
      Answers-sealed _ (analyze-Answers true d.error_text d.ask_analysis v q.dialog)
  serve-Answers ai_reply v =
      Answers-sealed _ (reply_assist-Answers true d.error_text d.ask_reply v q.reply)
  serve-Answers register v = search (statuses, Answers-sealed)
  serve-Answers login v = search (statuses, Answers-sealed)
  serve-Answers staff_login v = search (statuses, Answers-sealed)
  serve-Answers logout v = search (statuses, Answers-sealed)
  serve-Answers user_list v = search (statuses, Answers-sealed)
  serve-Answers user_get v = search (statuses, Answers-sealed)
  serve-Answers user_me v = search (statuses, Answers-sealed)
  serve-Answers user_update v = search (statuses, Answers-sealed)
  serve-Answers notice_list v = search (statuses, Answers-sealed)
  serve-Answers notice_read v = search (statuses, Answers-sealed)
  serve-Answers notice_read_all v = search (statuses, Answers-sealed)
  serve-Answers reminder_list v = search (statuses, Answers-sealed)
  serve-Answers reminder_create v = search (statuses, Answers-sealed)
  serve-Answers reminder_complete v = search (statuses, Answers-sealed)
  serve-Answers competitor_list v = search (statuses, Answers-sealed)
  serve-Answers competitor_create v = search (statuses, Answers-sealed)
  serve-Answers competitor_update v = search (statuses, Answers-sealed)
  serve-Answers erp_list v = search (statuses, Answers-sealed)
  serve-Answers erp_event v = search (statuses, Answers-sealed)
  serve-Answers erp_stock v = search (statuses, Answers-sealed)
  serve-Answers erp_schedule v = search (statuses, Answers-sealed)
  serve-Answers policy_list v = search (statuses, Answers-sealed)
  serve-Answers policy_create v = search (statuses, Answers-sealed)
  serve-Answers complex_create v = search (statuses, Answers-sealed)
  serve-Answers complex_all v = search (statuses, Answers-sealed)
  serve-Answers complex_get v = search (statuses, Answers-sealed)
  serve-Answers complex_update v = search (statuses, Answers-sealed)
  serve-Answers building_create v = search (statuses, Answers-sealed)
  serve-Answers building_get v = search (statuses, Answers-sealed)
  serve-Answers buildings_of v = search (statuses, Answers-sealed)
  serve-Answers building_update v = search (statuses, Answers-sealed)
  serve-Answers apartment_create v = search (statuses, Answers-sealed)
  serve-Answers apartment_get v = search (statuses, Answers-sealed)
  serve-Answers apartments_of v = search (statuses, Answers-sealed)
  serve-Answers apartment_update v = search (statuses, Answers-sealed)
  serve-Answers progress_create v = search (statuses, Answers-sealed)
  serve-Answers progress_get v = search (statuses, Answers-sealed)
  serve-Answers progress_of v = search (statuses, Answers-sealed)
  serve-Answers progress_update v = search (statuses, Answers-sealed)
  serve-Answers unit_list v = search (statuses, Answers-sealed)
  serve-Answers unit_create v = search (statuses, Answers-sealed)
  serve-Answers unit_update v = search (statuses, Answers-sealed)

  -- Some endpoints are open to guests.
  pub guest-Answers : (e : Endpoint) → is_open e ≡ true → Answers (serve d q e none)
  unfolding serve Chat.create_session Auth.register Auth.login Auth.login_staff Auth.logout
      Houses.get_all_complexes Houses.get_complex Houses.get_building
      Houses.get_buildings_by_complex Houses.get_apartment Houses.get_apartments_by_building
      Houses.get_progress Houses.get_progress_by_building Units.list
  guest-Answers chat_create h = search (statuses, Answers-sealed)
  guest-Answers register h = search (statuses, Answers-sealed)
  guest-Answers login h = search (statuses, Answers-sealed)
  guest-Answers staff_login h = search (statuses, Answers-sealed)
  guest-Answers logout h = search (statuses, Answers-sealed)
  guest-Answers complex_all h = search (statuses, Answers-sealed)
  guest-Answers complex_get h = search (statuses, Answers-sealed)
  guest-Answers buildings_of h = search (statuses, Answers-sealed)
  guest-Answers building_get h = search (statuses, Answers-sealed)
  guest-Answers apartments_of h = search (statuses, Answers-sealed)
  guest-Answers progress_of h = search (statuses, Answers-sealed)
  guest-Answers apartment_get h = search (statuses, Answers-sealed)
  guest-Answers progress_get h = search (statuses, Answers-sealed)
  guest-Answers unit_list h = search (statuses, Answers-sealed)
  guest-Answers _ h = absurd (ground (arith, h))
