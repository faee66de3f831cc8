-- ===== src/Domain/Notice.antt =====
-- backend/internal/domain/notification.go and reminder.go.
use dsk_agent.Base.{ℕ, Bool, Option}
use dsk_agent.Base.Text.{Text}

pub data NotificationType : Type 0 where
  construction_delay construction_risk deal_update general : NotificationType

pub record Notification : Type 0 where
  pub id : ℕ
  pub user_id : ℕ
  pub deal_id : Option ℕ
  pub type : NotificationType
  pub title : Text
  pub message : Text
  pub is_read : Bool
  pub created_at : ℕ
  pub read_at : Option ℕ

pub record StaffReminder : Type 0 where
  pub id : ℕ
  pub assigned_to : ℕ
  pub created_by : ℕ
  pub deal_id : Option ℕ
  pub title : Text
  pub due_at : ℕ
  pub completed_at : Option ℕ
  pub created_at : ℕ
