-- ===== src/ChatHandler.antt =====
-- The handlers of backend/internal/handler/chat.go. The text of a query's status is one that the enum
-- has.
pub mod Rules
use dsk_agent.Base.{
  ℕ, Bool, true, false, not, ◌&&◌, ◌||◌, Option, none, some, List, [], ◌∷◌, select, is_some, ◌==◌,
  if◌then◌else◌,
}
use dsk_agent.Base.Text.{Text, codes}
use dsk_agent.Domain.Error.{
  Err, Result, ok, err, fault, driver, chat_session_not_found, invalid_session_data,
}
use dsk_agent.Domain.Account.{User, Role, is_user, is_manager, is_supervisor}
use dsk_agent.Domain.Chat.{
  ChatSession, ChatSessionStatus, ChatSessionRejection, Message, SenderType, client, manager,
  CreateChatSessionRequest,
}
use dsk_agent.Db.{Action, ◌>>=◌, pure, attempt}
use dsk_agent.Http.{
  Refusal, http_error, http_cause, panicked, Response, written, refusal, forbidden, unauthorized,
  bad_body, says_not_found, Handler, refuse, on_value, need, call, reply,
}
use dsk_agent.ChatService as Service
use dsk_agent.ChatService.{can_read_session, can_manage_session}

abbrev pub bad_id : Refusal
bad_id = http_error 400 (codes "invalid session id")

abbrev is_invalid_session_data : Err → Bool
is_invalid_session_data invalid_session_data = true
is_invalid_session_data _ = false

-- The status for an error of `CreateSession`.
abbrev create_status : Err → ℕ
create_status e = if is_invalid_session_data e then 400 else 500

-- The status for an error of `GetMessages`.
abbrev messages_status : Err → ℕ
messages_status e = if says_not_found e then 404 else 500

abbrev user_id_of : Option User → Option ℕ
user_id_of none = none
user_id_of (some u) = some u.id

-- The employee of the query: none where it is not given, or not by a supervisor; an inner none is a
-- text that is no number.
abbrev pub employee_filter : Option User → Option (Option ℕ) → Response (Option ℕ)
employee_filter u none = written 200 none
employee_filter none (some raw) = refusal panicked
employee_filter (some v) (some raw) =
    if is_supervisor v.role
    then elim raw [
      | none ↦ refusal (http_error 400 (codes "invalid employee id"))
      | some id ↦ written 200 (some id)
    ]
    else written 200 none

-- A manager's list has only what the manager may read.
abbrev pub visible_sessions : User → List ChatSession → List ChatSession
visible_sessions u l =
    if is_manager u.role then select (λ cs. can_read_session (some u) (some cs)) l else l

abbrev pub sender_of : Role → SenderType
sender_of role = if is_manager role || is_supervisor role then manager else client

abbrev pub may_answer : User → ChatSession → Bool
may_answer u cs = is_user u.role || can_manage_session (some u) (some cs)

module _ {F : Type 0} where
  -- `findAuthorizedSession`; the value is the session.
  unfoldable pub find_authorized_session : Option User → ℕ → Bool → Handler F ChatSession
  find_authorized_session u id manage = call (Service.get_session_by_id id) (http_cause 404) λ cs.
      let allowed =
        if manage then can_manage_session u (some cs) else can_read_session u (some cs) in
      if allowed then pure (written 200 cs) else refuse forbidden

  abbrev pub authorized :
      {B : Type 0} → Option User → ℕ → Bool → (ChatSession → Handler F B) → Handler F B
  authorized u id manage f = find_authorized_session u id manage >>= on_value f

  -- `CreateSession`.
  unfoldable pub create_session :
      Option User → Option CreateChatSessionRequest → Handler F ChatSession
  create_session u body = need body bad_body λ req.
      call (Service.create_session req (user_id_of u)) (λ e. http_cause (create_status e) e)
        λ cs. pure (written 201 cs)

  -- `GetMySessions`.
  unfoldable pub get_my_sessions : Option User → Handler F (List ChatSession)
  get_my_sessions u = need u unauthorized λ v.
      call (Service.get_sessions (some v.id) none none) (http_cause 500) λ l. pure (written 200 l)

  -- `GetAllSessions`.
  unfoldable pub get_all_sessions :
      Option User → Option ChatSessionStatus → Option (Option ℕ) → Handler F (List ChatSession)
  get_all_sessions u status employee =
      on_value
        (λ e.
          call (Service.get_sessions none e status) (http_cause 500)
            λ l. need u panicked λ v. pure (written 200 (visible_sessions v l)))
        (employee_filter u employee)

  -- `GetSession`.
  unfoldable pub get_session : Option User → Option ℕ → Handler F ChatSession
  get_session u raw = need raw bad_id λ id. find_authorized_session u id false

  -- `TakeSession`.
  unfoldable pub take_session : Option User → Option ℕ → Handler F ChatSession
  take_session u raw = need raw bad_id λ id.
      call (Service.get_session_by_id id) (http_cause 404) λ cs.
        if not (is_some cs.apartment_id)
        then refuse (http_error 400 (codes "general questions do not require taking into work"))
        else if is_some cs.employee_id
        then refuse (http_error 409 (codes "session is already assigned"))
        else need u panicked λ v. call (Service.take_session id v.id) (http_cause 409) λ done.
          call (Service.get_session_by_id id) (http_cause 500) λ taken. pure (written 200 taken)

  -- `CloseSession`.
  unfoldable pub close_session : Option User → Option ℕ → Handler F Text
  close_session u raw = need raw bad_id λ id. authorized u id true λ cs.
      call (Service.close_session id) (http_cause 500)
        λ done. pure (written 200 (codes "session closed successfully"))

  -- `RejectSession`, whose body is the reason.
  unfoldable pub reject_session :
      Option User → Option ℕ → Option Text → Handler F ChatSessionRejection
  reject_session u raw body = need raw bad_id λ id. authorized u id true λ cs.
      need body bad_body λ reason. need u panicked λ v.
        call (Service.reject_session id v.id reason) (http_cause 400)
          λ rejection. pure (written 201 rejection)

  -- `SendMessage`, whose body is the content.
  unfoldable pub send_message : Option User → Option ℕ → Option Text → Handler F Message
  send_message u raw body = need raw bad_id λ id. authorized u id false λ cs. need u panicked λ v.
      if not (may_answer v cs)
      then refuse forbidden
      else need body bad_body λ content.
        call (Service.send_message id (some v.id) (sender_of v.role) content) (http_cause 400)
          λ msg. pure (written 201 msg)

  -- `GetMessages`.
  unfoldable pub get_messages : Option User → Option ℕ → Handler F (List Message)
  get_messages u raw = need raw bad_id λ id. authorized u id false λ cs. need u panicked λ v.
      call (Service.get_messages id (some v.id)) (λ e. http_cause (messages_status e) e)
        λ l. pure (written 200 l)

  -- `DeleteSession`.
  unfoldable pub delete_session : Option User → Option ℕ → Handler F Text
  delete_session u raw = need raw bad_id λ id. need u unauthorized λ v.
      call (Service.delete_session_for_user id v.id) (http_cause 500)
        λ done. pure (written 200 (codes "session hidden successfully"))
