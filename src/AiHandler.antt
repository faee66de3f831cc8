-- ===== src/AiHandler.antt =====
-- The handler of backend/internal/handler/ai.go. `ask` is what the agents answer through AgentService;
-- `error_text` is the text of an agent's error.
pub mod Dialog
pub mod Privacy
pub mod Answered
use dsk_agent.Base.{
  ℕ, Bool, true, false, not, ◌&&◌, ◌||◌, Option, none, some, [], ◌∷◌, ◌++◌, ◌==◌, if◌then◌else◌,
}
use dsk_agent.Base.Text.{Text, codes, text_eq, trim_space, is_empty}
use dsk_agent.Domain.Error.{Result, ok, err}
use dsk_agent.Domain.Account.{User, is_user, is_manager, is_supervisor}
use dsk_agent.Domain.Chat.{ChatSession, SenderType, client, other}
use dsk_agent.Domain.Deal.{Deal}
use dsk_agent.Domain.Ai.{
  AiChatRequest, AgentChatPayload, AgentChatResponseData, DialogReplyAssistRequest,
  DialogReplyAssistResponseData,
}
use dsk_agent.Db.{Action, ◌>>=◌, ◌>>◌, pure, attempt, ignore}
use dsk_agent.Repo.Audit.{Audit, record_action}
use dsk_agent.ChatService as Chat
use dsk_agent.ChatService.{can_read_session, can_manage_session}
use dsk_agent.DealService as Deals
use dsk_agent.AgentService.{
  AgentError, Answer, output, failure, agent_error, rabbitmq_unavailable, response_timeout,
}
use dsk_agent.Http.{
  Refusal, http_error, panicked, Response, written, refusal, on_value, forbidden, bad_body, Handler,
  refuse, need, call,
}

-- `x != nil && *x <= 0`.
abbrev is_bad : Option ℕ → Bool
is_bad none = false
is_bad (some id) = id == 0

abbrev is_forbidden : AgentError → Bool
is_forbidden (agent_error code text) = text_eq code (codes "FORBIDDEN")
is_forbidden _ = false

-- What `Chat` answers to an error of the agents.
unfoldable pub chat_failure : (AgentError → Text) → AgentError → Refusal
chat_failure error_text (agent_error code text) =
    if text_eq code (codes "FORBIDDEN")
    then http_error 403 (codes "FORBIDDEN")
    else http_error 500 (codes "AI service error: " ++ error_text (agent_error code text))
chat_failure error_text rabbitmq_unavailable =
    http_error 503 (codes "AI service unavailable: " ++ error_text rabbitmq_unavailable)
chat_failure error_text response_timeout = http_error 504 (codes "AI response timeout")
chat_failure error_text e = http_error 500 (codes "AI service error: " ++ error_text e)

-- The checks of `Chat` on the body; the value is the session's id and the trimmed message.
unfoldable pub chat_input : AiChatRequest → Response (ℕ × Text)
chat_input req =
    let message = trim_space req.message in
    elim req.session_id [
      | none ↦
          if is_empty message
          then refusal (http_error 400 (codes "message cannot be empty"))
          else refusal (http_error 400 (codes "session_id must be a positive integer"))
      | some id ↦
          if is_empty message
          then refusal (http_error 400 (codes "message cannot be empty"))
          else if id == 0
          then refusal (http_error 400 (codes "session_id must be a positive integer"))
          else if is_bad req.deal_id
          then refusal (http_error 400 (codes "deal_id must be a positive integer or null"))
          else if is_bad req.parking_unit_id
          then refusal (http_error 400 (codes "parking_unit_id must be a positive integer or null"))
          else if is_bad req.storage_unit_id
          then refusal (http_error 400 (codes "storage_unit_id must be a positive integer or null"))
          else written 200 (id, message)
    ]

abbrev pub no_chat : Refusal
no_chat = http_error 403 (codes "FORBIDDEN")

-- A user with an id, as `Chat` wants one.
abbrev pub known : Option User → Option User
known none = none
known (some u) = if u.id == 0 then none else some u

abbrev pub payload : User → AiChatRequest → ℕ → Text → AgentChatPayload
payload u req id message = record {
  user_id = u.id;
  session_id = id;
  deal_id = req.deal_id;
  parking_unit_id = req.parking_unit_id;
  storage_unit_id = req.storage_unit_id;
  message = message;
}

-- The audit of a chat.
abbrev pub chat_audit : User → AiChatRequest → Text → Text → Text → Text → Bool → Audit
chat_audit u req message response agent intent is_success = record {
  actor_id = u.id;
  deal_id = req.deal_id;
  session_id = req.session_id;
  action = codes "chat";
  request_text = message;
  response_text = response;
  agent = agent;
  intent = intent;
  is_success = is_success;
}

module _ {F : Type 0} (has_audit : Bool) where
  -- `recordAIAction`.
  unfoldable pub record_ai_action : Audit → Action F (Unit {0})
  record_ai_action a = if has_audit then ignore (record_action a) else pure tt

  module _ (error_text : AgentError → Text)
      (ask : AgentChatPayload → Answer AgentChatResponseData) where
    -- A message of a client's own conversation; its error is dropped.
    unfoldable pub client_message : User → ℕ → Option ℕ → SenderType → Text → Action F (Unit {0})
    client_message u id author sender text =
        if is_user u.role then ignore (Chat.send_message id author sender text) else pure tt

    -- The agents' answer in a client's own conversation.
    unfoldable pub ai_message : User → ℕ → Text → Action F (Unit {0})
    unfolding client_message
    ai_message u id text =
        if is_empty text then pure tt else client_message u id none (other (codes "ai")) text

    -- `Chat` once the agents have answered.
    unfoldable pub finish_chat :
        User
        → AiChatRequest
        → ℕ
        → Text
        → Answer AgentChatResponseData
        → Handler F AgentChatResponseData
    unfolding record_ai_action ai_message chat_failure
    finish_chat u req id message (failure e) = do
      record_ai_action (chat_audit u req message (error_text e) [] [] false)
      refuse (chat_failure error_text e)
    finish_chat u req id message (output data') = do
      record_ai_action (chat_audit u req message data'.message data'.agent data'.intent true)
      ai_message u id data'.message
      pure (written 200 data')

    -- `Chat` for a session that was read.
    unfoldable pub chat_in :
        User → AiChatRequest → ℕ → Text → ChatSession → Handler F AgentChatResponseData
    unfolding finish_chat client_message
    chat_in u req id message cs =
        if not (can_read_session (some u) (some cs))
          || (is_manager u.role && not (can_manage_session (some u) (some cs)))
        then refuse no_chat
        else client_message u id (some u.id) client message
          >> finish_chat u req id message (ask (payload u req id message))

    -- `Chat`.
    unfoldable pub chat : Option User → Option AiChatRequest → Handler F AgentChatResponseData
    unfolding chat_input chat_in
    chat u body = need body bad_body λ req.
        on_value
          (λ input. need (known u) (http_error 401 (codes "authenticated user is required")) λ v.
            call (Chat.get_session_by_id input.0)
              (λ e. http_error 404 (codes "chat session not found"))
              (chat_in v req input.0 input.1))
          (chat_input req)
