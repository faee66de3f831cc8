-- ===== src/Tests/Servers.antt =====
-- Requests of the servers at a concrete database.
use dsk_agent.Base.{
  false, ℕ, ◌≡◌, ◌⊎◌, refl, some, none, Option, true, [], ◌∷◌, arith, if◌then◌else◌, Bool-cases,
  inl, inr, find, ◌==◌,
}
use dsk_agent.Base.Text.{Text, codes, text_eq}
use dsk_agent.Domain.Error.{ok}
use dsk_agent.Domain.Account.{User, user, manager, supervisor}
use dsk_agent.Domain.Document.{OfferDocument}
use dsk_agent.Domain.Offer.{Offer, OfferDelivery, approved, sent}
use dsk_agent.Domain.Ai.{AiChatRequest, AgentChatPayload, AgentChatResponseData}
use dsk_agent.Db.{Store, exec, run_statement, send_mail}
use dsk_agent.AgentService.{AgentError, Answer, output, response_timeout, failure}
use dsk_agent.AuthService.{Claims, valid, validate_token, user_of_claims, claimed_user, role_of}
use dsk_agent.AuthHandler as Auth
use dsk_agent.AuthHandler.{Credentials, token_of}
use dsk_agent.Http.{written}
use dsk_agent.Http.Answered.{IsAnswer}
use dsk_agent.Server.{Deps, Request, Route, post, auth, staff_role, supervisor_role, offer_approve}
use dsk_agent.Server.Routes.{staff_routes, user_routes, public_routes}
use dsk_agent.Server.Run.{handle, serve, run_guards}
use dsk_agent.Server.Answered.{IsComplete, handle-Answers}
use dsk_agent.Server.Guards.{decides, staff_server-IsStaff}
use dsk_agent.OfferHandler.{pdf, send, approve}
use dsk_agent.OfferHandler.Documents.{MayTake, pdf-MayTake, send-MayTake}
use dsk_agent.AiHandler.{chat}
use dsk_agent.AiHandler.Privacy.{staff_chat-Keeps}
use dsk_agent.Repo.Document.{get_document}
use dsk_agent.DeliveryService as Delivery
use dsk_agent.DeliveryService.Outcome.{IsOutcome}
use dsk_agent.OfferService.Calls.{get_for_actor}
use dsk_agent.Repo.Offer.{get_by_id}
use dsk_agent.Repo.Deal.{get_deal_by_id}
use dsk_agent.Repo.Delivery.{save_document, create_delivery, finish_delivery}
use dsk_agent.Repo.Account.{get_user_by_id}
use dsk_agent.Repo.Offer as Rows
use dsk_agent.OfferService.Calls as Calls
use dsk_agent.Tests.Data.{
  person, state, tables, waiting, quiet_world, quiet_world-IsQuiet, floats, policy,
}
use dsk_agent.Tests.Deals.{settings}

abbrev signed : Store ℕ
signed = record state {
  tables = record tables { offers = record waiting { status = approved } ∷ [] };
}

abbrev drawn : OfferDocument ℕ → Option Text
drawn d = some d.client_name

pdf-MayTake_example :
    let run = pdf drawn (λ t. t) true (some (person 1 user)) (some 50) quiet_world signed in
    (row : Offer) × MayTake drawn (λ t. t) quiet_world signed (some (person 1 user)) (some 50) row
    × (50 ≡ row.id)
    × (data' : OfferDocument ℕ) × (s1 : Store ℕ) × (s2 : Store ℕ) × (get_document row.id quiet_world
          s1
        ≡ (ok data', s2))
    × (data'.offer.id ≡ row.id)
    × (drawn data' ≡ some (codes "N"))
    × (true ≡ true
        → (Delivery.store (λ t. t) row.id (codes "N") quiet_world s2 ≡ (ok tt, run.1))
          × (find (λ e. e.0 == row.id) run.1.tables.offer_documents
              ≡ some (row.id, codes "N", codes "N")))
unfolding exec run_statement pdf get_for_actor get_by_id get_deal_by_id get_document Delivery.store
    save_document
pdf-MayTake_example =
    pdf-MayTake drawn (λ t. t) quiet_world signed (some (person 1 user)) (some 50) true 200
      (record { offer_id = 50; document = codes "N" }) _ refl

abbrev mailed : OfferDelivery
mailed = record {
  id = 100;
  offer_id = 50;
  recipient = codes "e";
  status = sent;
  error_message = none;
  created_at = 60;
  sent_at = some 60;
}

send-MayTake_example :
    let unset : Text = codes "SMTP delivery is not configured" in
    let n : ℕ = 200 in
    (row : Offer) × MayTake drawn
      (λ t. t)
      quiet_world
      signed
      (some (person 2 manager))
      (some 50)
      row
    × (((n ≡ 200) × IsOutcome (λ t. t) quiet_world (mailed, none))
        ⊎ ((n ≡ 503) × IsOutcome (λ t. t) quiet_world (mailed, some unset)))
unfolding exec run_statement send get_for_actor get_by_id get_deal_by_id get_document Delivery.store
    save_document create_delivery Delivery.send get_user_by_id send_mail finish_delivery
send-MayTake_example =
    send-MayTake drawn (λ t. t) quiet_world signed (some (person 2 manager)) (some 50) 200 mailed _
      refl

abbrev question : AiChatRequest
question = record {
  message = codes "price?";
  session_id = some 40;
  deal_id = none;
  parking_unit_id = none;
  storage_unit_id = none;
}

abbrev error_text : AgentError → Text
error_text e = codes "E"

abbrev told : AgentChatPayload → Answer AgentChatResponseData
told payload = output (record { message = codes "5"; agent = codes "a"; intent = codes "b" })

staff_chat-Keeps_example :
    let t =
      (chat true error_text told
        (some (person 3 supervisor))
        (some question)
        quiet_world
        state).1.tables in
    (t.messages ≡ state.tables.messages) × (t.chat_sessions ≡ state.tables.chat_sessions)
staff_chat-Keeps_example =
    staff_chat-Keeps quiet_world state true error_text told (person 3 supervisor) (some question)
      quiet_world-IsQuiet (ground arith)

-- The token `t` is that of the supervisor, and every other token is refused.
abbrev boss : Claims
boss = record {
  id = some 3;
  name = some (codes "N");
  email = some (codes "e");
  role = some (codes "supervisor");
}

abbrev parse : Text → Option Claims
parse t = if text_eq t (codes "t") then some boss else none

abbrev deps : Deps ℕ
deps = record {
  floats = floats;
  settings = settings;
  policy = policy;
  now = 60;
  build = drawn;
  checksum = λ t. t;
  generate = λ n t. ok t;
  parse = parse;
  matches = text_eq;
  sign = λ u n. ok (codes "t");
  error_text = error_text;
  ask = told;
  ask_analysis = λ d u. failure response_timeout;
  ask_reply = λ d u t. failure response_timeout;
}

abbrev request : Request ℕ
request = record {
  credentials = record { authorization = codes "Bearer t"; cookie = none };
  id = some 50;
  complex_id = none;
  building_id = none;
  user_id = none;
  employee_id = none;
  session_status = none;
  deal_status = none;
  text = none;
  session = none;
  new_deal = none;
  deal_update = none;
  calculation = none;
  new_offer = none;
  registration = none;
  login = none;
  question = some question;
  dialog = none;
  reply = none;
  unread_only = false;
  change = none;
  reminder = none;
  competitor = none;
  event = none;
  stock = none;
  schedule = none;
  new_policy = none;
  complex = none;
  building = none;
  apartment = none;
  progress = none;
  unit = none;
}

abbrev approval : Route
approval = record {
  method = post;
  path = codes "/api/offers/{id}/approve";
  guards = auth ∷ staff_role ∷ supervisor_role ∷ [];
  endpoint = offer_approve;
}

parse-IsComplete : IsComplete parse
unfolding user_of_claims role_of
parse-IsComplete t c h = elim (Bool-cases (text_eq t (codes "t"))) [
  | inl e ↦ (claimed_user 3 (codes "N") (codes "e") supervisor, ground (arith, h, e))
  | inr e ↦ absurd (ground (arith, h, e))
]

handle-Answers_example : IsAnswer (handle deps approval request quiet_world state).0
unfolding public_routes staff_routes user_routes
handle-Answers_example =
    handle-Answers deps 34 approval parse-IsComplete refl request quiet_world state

staff_server-IsStaff_example :
    (v : User) × (validate_token parse (token_of request.credentials) ≡ valid v)
    × ((v.role ≡ manager) ⊎ (v.role ≡ supervisor))
    × (decides offer_approve ≡ true → v.role ≡ supervisor)
    × (serve deps request offer_approve (some v) quiet_world state
        ≡ (ok (written 200 tt), (handle deps approval request quiet_world state).1))
unfolding staff_routes handle run_guards Auth.auth_middleware validate_token Auth.require_staff_role
    Auth.require_supervisor_role serve approve Calls.decide get_by_id exec Rows.decide
staff_server-IsStaff_example =
    staff_server-IsStaff deps quiet_world state 20 200 approval request _ refl refl
