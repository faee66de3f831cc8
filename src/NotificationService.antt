-- ===== src/NotificationService.antt =====
-- backend/internal/service/notification.go: what the clients of a building hear of a change in its
-- construction.
pub mod Once
use dsk_agent.Base.{
  ℕ, Bool, true, false, not, ◌&&◌, ◌||◌, Option, none, some, List, [], ◌∷◌, ◌++◌, if◌then◌else◌,
}
use dsk_agent.Base.Int.{ℤ, pos, ltb_ℤ}
use dsk_agent.Base.Text.{Text, codes, trim_space, is_empty, text_eq}
use dsk_agent.Base.Strconv.{format_int}
use dsk_agent.Domain.Error.{Result, ok, err}
use dsk_agent.Domain.Account.{User}
use dsk_agent.Domain.Estate.{
  ConstructionProgress, ProgressStatus, not_started, in_progress, completed, delayed,
}
use dsk_agent.Domain.Deal.{Deal}
use dsk_agent.Domain.Notice.{Notification, NotificationType, construction_delay, construction_risk}
use dsk_agent.Db.{Action, Mail, ◌>>=◌, ◌>>◌, pure, attempt, send_mail}
use dsk_agent.Repo.Account.{get_user_by_id}
use dsk_agent.Repo.Deal.{get_deals_by_building_id}
use dsk_agent.Repo.Notice as Store

abbrev pub status_name : ProgressStatus → Text
status_name not_started = codes "not_started"
status_name in_progress = codes "in_progress"
status_name completed = codes "completed"
status_name delayed = codes "delayed"

abbrev is_delayed : ProgressStatus → Bool
is_delayed delayed = true
is_delayed _ = false

abbrev or_zero : Option ℤ → ℤ
or_zero none = pos 0
or_zero (some n) = n

abbrev or_empty : Option Text → Text
or_empty none = []
or_empty (some s) = s

unfoldable pub is_delay : ConstructionProgress → Bool
is_delay p = is_delayed p.status || ltb_ℤ (pos 0) (or_zero p.delay_days)

unfoldable pub has_risk : ConstructionProgress → Bool
has_risk p =
    text_eq (or_empty p.risk_level) (codes "medium")
    || text_eq (or_empty p.risk_level) (codes "high")

-- The state that is claimed: status, risk level, days and reason.
unfoldable pub fingerprint : ConstructionProgress → Text
fingerprint p =
    status_name p.status
    ++ codes "|"
    ++ or_empty p.risk_level
    ++ codes "|"
    ++ format_int (or_zero p.delay_days)
    ++ codes "|"
    ++ trim_space p.delay_reason

abbrev reason_of : Text → Text
reason_of [] = codes "технологические особенности производственного процесса"
reason_of (c ∷ s) = c ∷ s

unfoldable pub notice_title : ConstructionProgress → Text
unfolding is_delay
notice_title p =
    if is_delay p
    then codes "Изменение сроков строительства: этап " ++ p.stage_name
    else codes "Внимание: риск изменения сроков этапа " ++ p.stage_name

unfoldable pub notice_text : ConstructionProgress → Text
unfolding is_delay
notice_text p =
    let reason = reason_of (trim_space p.delay_reason) in
    let days = or_zero p.delay_days in
    let shift =
      if ltb_ℤ (pos 0) days
      then codes " Срок сдвигается на " ++ format_int days ++ codes " дн."
      else [] in
    let level =
      if text_eq (or_empty p.risk_level) (codes "high") then codes "высокий" else codes "средний" in
    if is_delay p
    then codes "Уважаемый клиент! По вашему объекту зафиксирована задержка на этапе \""
      ++ p.stage_name
      ++ codes "\"."
      ++ shift
      ++ codes " Причина: "
      ++ reason
      ++ codes "."
    else codes "Уважаемый клиент! По вашему объекту зафиксирован "
      ++ level
      ++ codes " уровень риска срыва сроков на этапе \""
      ++ p.stage_name
      ++ codes "\". Причина: "
      ++ reason
      ++ codes ". Наши специалисты контролируют ситуацию."

unfoldable pub notice_kind : ConstructionProgress → NotificationType
unfolding is_delay
notice_kind p = if is_delay p then construction_delay else construction_risk

-- The in-app notification for one deal.
unfoldable pub notice_for : {F : Type 0} → ConstructionProgress → Deal F → Notification
unfolding notice_kind notice_title notice_text
notice_for p deal = record {
  id = 0;
  user_id = deal.user_id;
  deal_id = some deal.id;
  type = notice_kind p;
  title = notice_title p;
  message = notice_text p;
  is_read = false;
  created_at = 0;
  read_at = none;
}

abbrev notice_mail : ConstructionProgress → User → Mail
unfolding notice_title notice_text
notice_mail p account = record {
  recipient = account.email;
  subject = notice_title p;
  body =
      codes "Здравствуйте, "
      ++ account.name
      ++ codes "!\n\n"
      ++ notice_text p
      ++ codes "\n\nС уважением,\nКоманда застройщика";
  attachment = none;
}

module _ {F : Type 0} where
  -- The mail to a client; its error is only logged.
  abbrev mail_client : ConstructionProgress → Result User → Action F (Unit {0})
  mail_client p (err e) = pure tt
  mail_client p (ok account) =
      if is_empty account.email then pure tt else (do send_mail (notice_mail p account); pure tt)

  abbrev tell_client : ConstructionProgress → Deal F → Result Notification → Action F (Unit {0})
  tell_client p deal (err e) = pure tt
  tell_client p deal (ok n) = do
    account ← attempt (get_user_by_id deal.user_id)
    mail_client p account

  -- One round of the loop over the deals: a notification that fails is skipped.
  unfoldable pub notify_deal : ConstructionProgress → Deal F → Action F (Unit {0})
  unfolding notice_for
  notify_deal p deal = do
    created ← attempt (Store.create_notification (notice_for p deal))
    tell_client p deal created

  unfoldable pub notify_deals : ConstructionProgress → List (Deal F) → Action F (Unit {0})
  unfolding notify_deal
  notify_deals p [] = pure tt
  notify_deals p (deal ∷ deals) = do notify_deal p deal; notify_deals p deals

  -- `NotifyConstructionUpdate`.
  unfoldable pub notify_construction_update : Option ConstructionProgress → Action F (Unit {0})
  unfolding is_delay has_risk fingerprint notify_deals
  notify_construction_update none = pure tt
  notify_construction_update (some p) = do
    changed ← Store.claim_construction_state p.id (fingerprint p)
    if not changed || (not (is_delay p) && not (has_risk p))
        then pure tt
        else (do deals ← get_deals_by_building_id p.building_id; notify_deals p deals)

  -- The methods that only pass their arguments on.
  unfoldable pub get_notifications : ℕ → Bool → Action F (List Notification)
  get_notifications user_id unread_only = Store.get_notifications_by_user_id user_id unread_only

  unfoldable pub mark_as_read : ℕ → ℕ → Action F (Unit {0})
  mark_as_read id user_id = Store.mark_as_read id user_id

  unfoldable pub mark_all_as_read : ℕ → Action F (Unit {0})
  mark_all_as_read user_id = Store.mark_all_as_read user_id
