-- ===== src/ChatService.antt =====
-- backend/internal/service/chat.go and the access rules of backend/internal/handler/chat.go.
pub mod Rules
use dsk_agent.Base.{
  ℕ, Bool, true, false, not, ◌&&◌, ◌||◌, Option, none, some, List, [], ◌∷◌, opt_eq, is_some, find,
  if◌then◌else◌,
}
use dsk_agent.Base.Text.{Text, trim_space, is_empty}
use dsk_agent.Domain.Error.{Result, ok, err, empty_message, empty_reason}
use dsk_agent.Domain.Account.{User, user, manager, supervisor, is_manager, is_supervisor}
use dsk_agent.Domain.Chat.{
  ChatSession, ChatSessionStatus, opened, is_close, ChatSessionRejection, Message, SenderType,
  client, CreateChatSessionRequest,
}
use dsk_agent.Db.{Action, ◌>>=◌, ◌>>◌, pure, attempt, refuse_if, ignore}
use dsk_agent.Repo.Chat as Store

-- `canReadSession` of the handler; a nil user or session is refused.
unfoldable pub can_read_session : Option User → Option ChatSession → Bool
can_read_session none cs = false
can_read_session (some u) none = false
can_read_session (some u) (some cs) = elim u.role [
  | supervisor ↦ true
  | manager ↦ not (is_some cs.employee_id) || opt_eq cs.employee_id (some u.id)
  | user ↦ opt_eq cs.user_id (some u.id)
  | _ ↦ false
]

-- `canManageSession` of the handler.
unfoldable pub can_manage_session : Option User → Option ChatSession → Bool
can_manage_session none cs = false
can_manage_session (some u) none = false
can_manage_session (some u) (some cs) =
    if is_supervisor u.role
    then true
    else if is_manager u.role
    then (if is_some cs.apartment_id then opt_eq cs.employee_id (some u.id) else true)
    else false

abbrev given : Text → Option Text
given [] = none
given (c ∷ s) = some (c ∷ s)

-- The session that `CreateSession` asks the store for.
unfoldable pub requested_session : CreateChatSessionRequest → Option ℕ → ChatSession
requested_session req user_id = record {
  id = 0;
  user_id = user_id;
  employee_id = none;
  apartment_id = req.apartment_id;
  guest_name = given req.guest_name;
  guest_email = given req.guest_email;
  guest_phone = given req.guest_phone;
  status = opened;
  deleted_by_user = false;
  created_at = 0;
  updated_at = 0;
  user_name = none;
  employee_name = none;
}

abbrev pub new_message : ℕ → Option ℕ → SenderType → Text → Message
new_message session_id user_id sender content = record {
  id = 0;
  chat_session_id = session_id;
  user_id = user_id;
  sender_type = sender;
  content = content;
  is_read = false;
  sended_at = 0;
  sender_name = none;
}

-- The general session that a logged-in user goes on with.
unfoldable pub reusable : Result (List ChatSession) → Option ChatSession
reusable (err e) = none
reusable (ok l) = find (λ cs. not (is_some cs.apartment_id) && not (is_close cs.status)) l

module _ {F : Type 0} where
  -- The first message of a session; its error is dropped.
  unfoldable pub first_message : ℕ → Option ℕ → Text → Action F (Unit {0})
  first_message session_id user_id text =
      if is_empty (trim_space text)
      then pure tt
      else ignore (Store.create_message (new_message session_id user_id client text))

  unfoldable pub new_session : CreateChatSessionRequest → Option ℕ → Action F ChatSession
  unfolding requested_session first_message
  new_session req user_id = do
    created ← Store.create_session (requested_session req user_id)
    first_message created.id user_id req.message
    pure created

  abbrev reuse_or_new : CreateChatSessionRequest → ℕ → Option ChatSession → Action F ChatSession
  reuse_or_new req user_id none = new_session req (some user_id)
  reuse_or_new req user_id (some cs) = do first_message cs.id (some user_id) req.message; pure cs

  -- `CreateSession`.
  unfoldable pub create_session : CreateChatSessionRequest → Option ℕ → Action F ChatSession
  unfolding new_session reusable first_message
  create_session req none = new_session req none
  create_session req (some user_id) =
      if is_some req.apartment_id then new_session req (some user_id) else (do
        existing ← attempt (Store.get_sessions (some user_id) none none)
        reuse_or_new req user_id (reusable existing))

  -- `RejectSession`.
  unfoldable pub reject_session : ℕ → ℕ → Text → Action F ChatSessionRejection
  reject_session session_id employee_id reason = do
    refuse_if (is_empty (trim_space reason)) empty_reason
    Store.create_rejection (record {
      id = 0;
      chat_session_id = session_id;
      employee_id = employee_id;
      reason = trim_space reason;
      created_at = 0;
      employee_name = none;
    })

  -- `SendMessage`.
  unfoldable pub send_message : ℕ → Option ℕ → SenderType → Text → Action F Message
  send_message session_id user_id sender content = do
    refuse_if (is_empty (trim_space content)) empty_message
    Store.get_session_by_id session_id
    Store.create_message (new_message session_id user_id sender (trim_space content))

  -- `GetMessages`.
  unfoldable pub get_messages : ℕ → Option ℕ → Action F (List Message)
  get_messages session_id current_user_id = do
    Store.get_session_by_id session_id
    messages ← Store.get_messages_by_session_id session_id
    ignore (Store.mark_messages_as_read session_id current_user_id)
    pure messages

  -- The methods that only pass their arguments on.
  unfoldable pub get_session_by_id : ℕ → Action F ChatSession
  get_session_by_id id = Store.get_session_by_id id

  unfoldable pub get_sessions :
      Option ℕ → Option ℕ → Option ChatSessionStatus → Action F (List ChatSession)
  get_sessions user_id employee_id status = Store.get_sessions user_id employee_id status

  unfoldable pub take_session : ℕ → ℕ → Action F (Unit {0})
  take_session session_id employee_id = Store.take_session session_id employee_id

  unfoldable pub close_session : ℕ → Action F (Unit {0})
  close_session session_id = Store.close_session session_id

  unfoldable pub update_session_status : ℕ → ChatSessionStatus → Action F (Unit {0})
  update_session_status session_id status = Store.update_session_status session_id status

  unfoldable pub delete_session_for_user : ℕ → ℕ → Action F (Unit {0})
  delete_session_for_user session_id user_id = Store.delete_session_for_user session_id user_id
