-- ===== src/Domain/Ai.antt =====
-- backend/internal/domain/ai.go, and a row of `ai_audit_log`.
use dsk_agent.Base.{ℕ, Bool, Option}
use dsk_agent.Base.Text.{Text}

pub record AiChatRequest : Type 0 where
  pub message : Text
  pub session_id : Option ℕ
  pub deal_id : Option ℕ
  pub parking_unit_id : Option ℕ
  pub storage_unit_id : Option ℕ

pub record AgentChatPayload : Type 0 where
  pub user_id : ℕ
  pub session_id : ℕ
  pub deal_id : Option ℕ
  pub parking_unit_id : Option ℕ
  pub storage_unit_id : Option ℕ
  pub message : Text

pub record AgentChatResponseData : Type 0 where
  pub message : Text
  pub agent : Text
  pub intent : Text

pub record DialogReplyAssistRequest : Type 0 where
  pub deal_id : ℕ
  pub selected_text : Option Text

-- What the handler reads of the answer; `rest` is the JSON text of the other fields.
pub record DialogReplyAssistResponseData : Type 0 where
  pub intent : Text
  pub suggested_reply : Text
  pub rest : Text

-- An empty answer, agent or intent is stored as NULL. The status is `success` or `failed`.
pub record AuditEntry : Type 0 where
  pub actor_id : ℕ
  pub deal_id : Option ℕ
  pub chat_session_id : Option ℕ
  pub action : Text
  pub request_text : Text
  pub response_text : Option Text
  pub agent : Option Text
  pub intent : Option Text
  pub is_success : Bool
  pub created_at : ℕ
