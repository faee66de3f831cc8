-- ===== src/Repo/Notice.antt =====
-- backend/internal/repository/notification.go, reminder.go and the deliveries of offer_delivery.go.
use dsk_agent.Base.{
  ℕ, ◌+◌, Bool, true, false, not, ◌&&◌, ◌||◌, Option, none, some, List, [], ◌∷◌, ◌++◌, ltb, ◌==◌,
  find, any, select, update_where, is_some, if◌then◌else◌,
}
use dsk_agent.Base.Text.{Text, text_eq}
use dsk_agent.Base.Sort.{sort}
use dsk_agent.Domain.Error.{notification_not_found, reminder_not_found}
use dsk_agent.Domain.Account.{User, is_supervisor}
use dsk_agent.Domain.Notice.{Notification, StaffReminder}
use dsk_agent.Db.{Action, ◌>>=◌, pure, throw, or_throw, query, exec}

abbrev set_state : ℕ → Text → List (ℕ × Text) → List (ℕ × Text)
set_state id fingerprint = update_where (λ e. e.0 == id) (λ e. (id, fingerprint))

-- `INSERT … ON CONFLICT (progress_id) DO UPDATE … WHERE fingerprint IS DISTINCT FROM …`: whether a row was
-- written, and the rows.
unfoldable pub claim : ℕ → Text → List (ℕ × Text) → Bool × List (ℕ × Text)
claim progress_id fingerprint rows = elim (find (λ e. e.0 == progress_id) rows) [
  | none ↦ (true, rows ++ (progress_id, fingerprint) ∷ [])
  | some e ↦
      if text_eq e.1 fingerprint
      then (false, rows)
      else (true, set_state progress_id fingerprint rows)
]

abbrev or_now : Option ℕ → ℕ → Option ℕ
or_now none now = some now
or_now (some t) now = some t

-- `ORDER BY completed_at NULLS FIRST, due_at`.
abbrev pub reminded_before : StaffReminder → StaffReminder → Bool
reminded_before a b = elim a.completed_at [
  | none ↦ elim b.completed_at [ none ↦ ltb a.due_at b.due_at | some t ↦ true ]
  | some s ↦ elim b.completed_at [
    | none ↦ false
    | some t ↦ ltb s t || ((s == t) && ltb a.due_at b.due_at)
  ]
]

module _ {F : Type 0} where
  -- `ClaimConstructionState`.
  unfoldable pub claim_construction_state : ℕ → Text → Action F Bool
  unfolding claim
  claim_construction_state progress_id fingerprint = exec λ c now t.
      let (claimed, rows) = claim progress_id fingerprint t.construction_notification_state in
      (claimed, record t { construction_notification_state = rows })

  -- `CreateNotification`.
  unfoldable pub create_notification : Notification → Action F Notification
  create_notification n = exec λ c now t.
      let row : Notification = record n { id = t.next_id; created_at = now; read_at = none } in
      (row, record t { next_id = t.next_id + 1; notifications = t.notifications ++ row ∷ [] })

  -- `GetNotificationsByUserID`, `ORDER BY created_at DESC`.
  unfoldable pub get_notifications_by_user_id : ℕ → Bool → Action F (List Notification)
  get_notifications_by_user_id user_id unread_only = query λ now t.
      sort (λ a b. ltb b.created_at a.created_at)
        (select (λ n. (n.user_id == user_id) && (not unread_only || not n.is_read)) t.notifications)

  -- `MarkAsRead`.
  unfoldable pub mark_as_read : ℕ → ℕ → Action F (Unit {0})
  mark_as_read id user_id = do
    touched ← exec {A = Bool} λ c now t.
        let test = λ (n : Notification). (n.id == id) && (n.user_id == user_id) in
        let rows =
          update_where test (λ n. record n { is_read = true; read_at = some now })
            t.notifications in
        (any test t.notifications, record t { notifications = rows })
    if touched then pure tt else throw notification_not_found

  -- `MarkAllAsRead`.
  unfoldable pub mark_all_as_read : ℕ → Action F (Unit {0})
  mark_all_as_read user_id = exec λ c now t.
      let test = λ (n : Notification). (n.user_id == user_id) && not n.is_read in
      let rows =
        update_where test (λ n. record n { is_read = true; read_at = or_now n.read_at now })
          t.notifications in
      (tt, record t { notifications = rows })

  -- `reminderRepository.List`.
  unfoldable pub list_reminders : Option ℕ → Action F (List StaffReminder)
  list_reminders assigned_to = query λ now t. sort reminded_before (
      select (λ r. elim assigned_to [ none ↦ true | some id ↦ r.assigned_to == id ])
        t.staff_reminders)

  -- `reminderRepository.Create`.
  unfoldable pub create_reminder : StaffReminder → Action F StaffReminder
  create_reminder r = exec λ c now t.
      let row : StaffReminder = record r {
        id = t.next_id;
        completed_at = none;
        created_at = now;
      } in
      (row, record t { next_id = t.next_id + 1; staff_reminders = t.staff_reminders ++ row ∷ [] })

  -- `reminderRepository.Complete`.
  unfoldable pub complete_reminder : ℕ → User → Action F StaffReminder
  complete_reminder id actor = do
    done ← exec {A = Option StaffReminder} λ c now t.
        let test = λ (r : StaffReminder).
          (r.id == id)
          && not (is_some r.completed_at)
          && ((r.assigned_to == actor.id) || is_supervisor actor.role) in
        let finish = λ (r : StaffReminder). record r { completed_at = some now } in
        elim (find test t.staff_reminders) [
          | none ↦ (none, t)
          | some r ↦ (
            some (finish r),
            record t { staff_reminders = update_where test finish t.staff_reminders },
          )
        ]
    or_throw done reminder_not_found
