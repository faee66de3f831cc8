-- ===== src/Server.antt =====
-- The routes of backend/cmd/staff_server/main.go and backend/cmd/user_server/main.go, each with its
-- middleware, without those of the API pages. Which route a method and a path
-- belong to is chi's to say, and what a request carries is decoded for every handler that it may meet.
pub mod Routes
pub mod Run
pub mod Guards
pub mod Statuses
pub mod Total
pub mod Answered
use dsk_agent.Base.{ℕ, Bool, true, Option, none, some, List, [], ◌∷◌}
use dsk_agent.Base.Text.{Text, codes}
use dsk_agent.Base.Floats.{Floats}
use dsk_agent.Domain.Error.{Result}
use dsk_agent.Domain.Account.{User}
use dsk_agent.Domain.Chat.{CreateChatSessionRequest, ChatSessionStatus}
use dsk_agent.Domain.Deal.{CreateDealRequest, UpdateDealStatusRequest, DealStatus}
use dsk_agent.Domain.Document.{OfferDocument}
use dsk_agent.DealService.{Settings}
use dsk_agent.OfferService.Rules.{DiscountPolicy}
use dsk_agent.AuthService.{Claims}
use dsk_agent.Http.{Response, written, refusal, Handler, refuse}
use dsk_agent.Db.{◌>>=◌, pure}
use dsk_agent.ChatHandler as Chat
use dsk_agent.DealHandler as Deals
use dsk_agent.OfferHandler as Offers
use dsk_agent.OfferHandler.{CreateOfferRequest, CalculateOfferRequest}
use dsk_agent.AuthHandler as Auth
use dsk_agent.AuthHandler.{RegisterRequest, LoginRequest, Credentials}
use dsk_agent.Domain.Ai.{
  AiChatRequest, AgentChatPayload, AgentChatResponseData, DialogReplyAssistRequest,
  DialogReplyAssistResponseData,
}
use dsk_agent.AgentService.{AgentError, Answer}
use dsk_agent.AiHandler as Ai
use dsk_agent.AiHandler.Dialog as Dialog
use dsk_agent.Domain.Account.{UpdateUserRequest}
use dsk_agent.Domain.Estate.{ConstructionProgress}
use dsk_agent.Domain.Construction.{
  ResidentialComplex, Building, Home, Competitor, ErpEvent, MaterialStock, ProductionSchedule,
}
use dsk_agent.NoticeHandler.{CreateStaffReminderRequest}
use dsk_agent.CatalogueHandler.{CreateDiscountPolicyRequest}
use dsk_agent.ConstructionHandler.{Body}
use dsk_agent.AncillaryHandler.{UnitBody}

pub data Method : Type 0 where
  get post put delete : Method

pub data Guard : Type 0 where
  auth optional_auth staff_role supervisor_role : Guard

pub data Endpoint : Type 0 where
  chat_create chat_mine chat_all chat_get chat_take chat_close : Endpoint
  chat_reject chat_send chat_messages chat_delete deal_create deal_mine : Endpoint
  deal_all deal_get deal_status offer_list offer_get offer_calculate : Endpoint
  offer_create offer_request offer_approve offer_reject offer_pdf offer_send : Endpoint
  profile staff_create ai_chat ai_analyze ai_reply register : Endpoint
  login staff_login logout : Endpoint
  user_list user_get user_me user_update notice_list notice_read : Endpoint
  notice_read_all reminder_list reminder_create reminder_complete competitor_list
        competitor_create :
      Endpoint
  competitor_update erp_list erp_event erp_stock erp_schedule policy_list : Endpoint
  policy_create complex_create complex_all complex_get complex_update building_create : Endpoint
  building_get buildings_of building_update apartment_create apartment_get apartments_of : Endpoint
  apartment_update progress_create progress_get progress_of progress_update unit_list unit_create
        unit_update :
      Endpoint

pub record Route : Type 0 where
  pub method : Method
  pub path : Text
  pub guards : List Guard
  pub endpoint : Endpoint

-- What a request carries.
pub record Request (F : Type 0) : Type 0 where
  pub credentials : Credentials
  pub id : Option ℕ
  pub complex_id : Option ℕ
  pub building_id : Option ℕ
  pub user_id : Option ℕ
  pub employee_id : Option (Option ℕ)
  pub session_status : Option ChatSessionStatus
  pub deal_status : Option DealStatus
  pub text : Option Text
  pub session : Option CreateChatSessionRequest
  pub new_deal : Option (CreateDealRequest F)
  pub deal_update : Option (UpdateDealStatusRequest F)
  pub calculation : Option CalculateOfferRequest
  pub new_offer : Option CreateOfferRequest
  pub registration : Option RegisterRequest
  pub login : Option LoginRequest
  pub question : Option AiChatRequest
  pub dialog : Option ℕ
  pub reply : Option DialogReplyAssistRequest
  pub unread_only : Bool
  pub change : Option UpdateUserRequest
  pub reminder : Option CreateStaffReminderRequest
  pub competitor : Option (Competitor F)
  pub event : Option ErpEvent
  pub stock : Option (MaterialStock F)
  pub schedule : Option ProductionSchedule
  pub new_policy : Option CreateDiscountPolicyRequest
  pub complex : Option ResidentialComplex
  pub building : Option (Body (Building F))
  pub apartment : Option (Body (Home F))
  pub progress : Option (Body ConstructionProgress)
  pub unit : Option (UnitBody F)

-- What the services are made with: limits, and the parameters of their models. `now` is the clock.
pub record Deps (F : Type 0) : Type 0 where
  pub floats : Floats F
  pub settings : Settings F
  pub policy : DiscountPolicy
  pub now : ℕ
  pub build : OfferDocument F → Option Text
  pub checksum : Text → Text
  pub generate : ℕ → Text → Result Text
  pub parse : Text → Option Claims
  pub matches : Text → Text → Bool
  pub sign : User → ℕ → Result Text
  pub error_text : AgentError → Text
  pub ask : AgentChatPayload → Answer AgentChatResponseData
  pub ask_analysis : ℕ → ℕ → Answer Text
  pub ask_reply : ℕ → ℕ → Option Text → Answer DialogReplyAssistResponseData
