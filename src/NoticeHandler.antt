-- ===== src/NoticeHandler.antt =====
-- The handlers of backend/internal/handler/notification.go and reminder.go. The zero time is 0.
use dsk_agent.Base.{ℕ, Bool, not, ◌||◌, Option, none, some, List, ◌==◌, if◌then◌else◌}
use dsk_agent.Base.Text.{Text, codes, trim_space, is_empty}
use dsk_agent.Domain.Error.{Err, notification_not_found, reminder_not_found}
use dsk_agent.Domain.Account.{User, is_supervisor}
use dsk_agent.Domain.Notice.{Notification, StaffReminder}
use dsk_agent.NotificationService as Service
use dsk_agent.Repo.Notice as Rows
use dsk_agent.Http.{
  Refusal, http_error, http_cause, panicked, unauthorized, Handler, refuse, need, reply,
  positive_id,
}

-- The status for an error of `MarkAsRead`, and for one of `Complete`.
unfoldable pub mark_status : Err → ℕ
mark_status notification_not_found = 404
mark_status _ = 500

unfoldable pub complete_status : Err → ℕ
complete_status reminder_not_found = 404
complete_status _ = 500

pub record CreateStaffReminderRequest : Type 0 where
  pub assigned_to : ℕ
  pub deal_id : Option ℕ
  pub title : Text
  pub due_at : ℕ

abbrev bad_reminder : Refusal
bad_reminder = http_error 400 (codes "invalid reminder")

-- The reminder that `Create` asks the repository for.
unfoldable pub requested_reminder : User → CreateStaffReminderRequest → StaffReminder
requested_reminder actor input = record {
  id = 0;
  assigned_to =
      if not (is_supervisor actor.role) || (input.assigned_to == 0)
      then actor.id
      else input.assigned_to;
  created_by = actor.id;
  deal_id = input.deal_id;
  title = trim_space input.title;
  due_at = input.due_at;
  completed_at = none;
  created_at = 0;
}

-- Whose reminders `List` shows: for a supervisor all, for others their own.
unfoldable pub assigned_filter : User → Option ℕ
assigned_filter actor = if not (is_supervisor actor.role) then some actor.id else none

module _ {F : Type 0} where
  -- `GetMyNotifications`.
  unfoldable pub get_my_notifications : Option User → Bool → Handler F (List Notification)
  get_my_notifications u unread_only =
      need u unauthorized
        λ v. reply 200 (Service.get_notifications v.id unread_only) (http_cause 500)

  -- `MarkAsRead`.
  unfoldable pub mark_as_read : Option User → Option ℕ → Handler F (Unit {0})
  unfolding mark_status
  mark_as_read u raw = need u unauthorized λ v.
      need raw (http_error 400 (codes "invalid id"))
        λ id. reply 200 (Service.mark_as_read id v.id) λ e. http_cause (mark_status e) e

  -- `MarkAllAsRead`.
  unfoldable pub mark_all_as_read : Option User → Handler F (Unit {0})
  mark_all_as_read u =
      need u unauthorized λ v. reply 200 (Service.mark_all_as_read v.id) (http_cause 500)

  -- `List`.
  unfoldable pub list_reminders : Option User → Handler F (List StaffReminder)
  unfolding assigned_filter
  list_reminders u =
      need u panicked
        λ actor. reply 200 (Rows.list_reminders (assigned_filter actor)) (http_cause 500)

  -- `Create`.
  unfoldable pub create_reminder :
      Option User → Option CreateStaffReminderRequest → Handler F StaffReminder
  unfolding requested_reminder
  create_reminder u body = need body bad_reminder λ input.
      if is_empty (trim_space input.title) || (input.due_at == 0)
      then refuse bad_reminder
      else need u panicked λ actor.
        reply 201 (Rows.create_reminder (requested_reminder actor input)) (http_cause 500)

  -- `Complete`.
  unfoldable pub complete_reminder : Option User → Option ℕ → Handler F StaffReminder
  unfolding complete_status
  complete_reminder u raw =
      need (positive_id raw) (http_error 400 (codes "invalid reminder id")) λ id.
        need u panicked
          λ actor. reply 200 (Rows.complete_reminder id actor) λ e. http_cause (complete_status e) e
