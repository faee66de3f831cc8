-- ===== src/Domain/Chat.antt =====
-- backend/internal/domain/chat.go. `opened` is the status "open".
use dsk_agent.Base.{ℕ, Bool, true, false, Option}
use dsk_agent.Base.Text.{Text}

pub data ChatSessionStatus : Type 0 where
  opened in_progress pending_approval contract close : ChatSessionStatus

abbrev pub is_close : ChatSessionStatus → Bool
is_close close = true
is_close _ = false

abbrev pub same_status : ChatSessionStatus → ChatSessionStatus → Bool
same_status opened opened = true
same_status in_progress in_progress = true
same_status pending_approval pending_approval = true
same_status contract contract = true
same_status close close = true
same_status _ _ = false

pub record ChatSession : Type 0 where
  pub id : ℕ
  pub user_id : Option ℕ
  pub employee_id : Option ℕ
  pub apartment_id : Option ℕ
  pub guest_name : Option Text
  pub guest_email : Option Text
  pub guest_phone : Option Text
  pub status : ChatSessionStatus
  pub deleted_by_user : Bool
  pub created_at : ℕ
  pub updated_at : ℕ
  pub user_name : Option Text
  pub employee_name : Option Text

pub record ChatSessionRejection : Type 0 where
  pub id : ℕ
  pub chat_session_id : ℕ
  pub employee_id : ℕ
  pub reason : Text
  pub created_at : ℕ
  pub employee_name : Option Text

-- The program writes the sender types `client`, `manager` and `system`.
pub data SenderType : Type 0 where
  client manager system : SenderType
  other : Text → SenderType

pub record Message : Type 0 where
  pub id : ℕ
  pub chat_session_id : ℕ
  pub user_id : Option ℕ
  pub sender_type : SenderType
  pub content : Text
  pub is_read : Bool
  pub sended_at : ℕ
  pub sender_name : Option Text

pub record CreateChatSessionRequest : Type 0 where
  pub apartment_id : Option ℕ
  pub guest_name : Text
  pub guest_email : Text
  pub guest_phone : Text
  pub message : Text
