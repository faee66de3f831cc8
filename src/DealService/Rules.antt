-- ===== src/DealService/Rules.antt =====
-- The texts that a deal's changes send (backend/internal/service/deal.go), and who may make which change.
use dsk_agent.Base.{ℕ, false, not, ◌&&◌, Option, none, some, ◌++◌, ◌==◌, if◌then◌else◌}
use dsk_agent.Base.Text.{Text, codes}
use dsk_agent.Base.Strconv.{decimal}
use dsk_agent.Domain.Error.{Result, ok, err, invalid_deal_data, deal_forbidden}
use dsk_agent.Domain.Account.{User, Role, user, manager, supervisor}
use dsk_agent.Domain.Deal.{
  Deal, DealStatus, pending, contract, completed, cancelled, is_contract, is_cancelled,
}
use dsk_agent.Domain.Chat.{Message, system}
use dsk_agent.Domain.Notice.{Notification, deal_update}

abbrev pub number : ℕ → Text
number n = codes "#" ++ decimal n

-- The in-app notification of `CreateDeal`.
unfoldable pub created_notice : ℕ → ℕ → Notification
created_notice user_id deal_id = record {
  id = 0;
  user_id = user_id;
  deal_id = some deal_id;
  type = deal_update;
  title = codes "Сформирована сделка " ++ number deal_id;
  message =
      codes "Менеджер оформил сделку "
      ++ number deal_id
      ++ codes " по выбранной квартире. Статус: «На согласовании». Квартира забронирована.";
  is_read = false;
  created_at = 0;
  read_at = none;
}

-- A message of the system in a chat session.
unfoldable pub system_message : ℕ → Text → Message
system_message session_id content = record {
  id = 0;
  chat_session_id = session_id;
  user_id = none;
  sender_type = system;
  content = content;
  is_read = false;
  sended_at = 0;
  sender_name = none;
}

-- What the system writes into the chat session about the new status.
unfoldable pub status_text : DealStatus → ℕ → Option Text
status_text contract id = some (
    codes "Клиент подтвердил сделку "
    ++ number id
    ++ codes ". Статус заявки изменен на «Согласовано» (Договор).")
status_text completed id = some (
    codes "Сделка "
    ++ number id
    ++ codes " успешно закрыта и завершена. Квартира переведена в статус «Продано».")
status_text pending id = some (
    codes "Предложение по сделке "
    ++ number id
    ++ codes " возвращено в работу для корректировки условий.")
status_text cancelled id = some (codes "Сделка " ++ number id ++ codes " отменена.")
status_text (DealStatus.other s) id = none

-- Who may set which status of a deal.
unfoldable pub authorize_update : {F : Type 0} → User → Deal F → DealStatus → Result (Unit {0})
authorize_update actor deal status = elim actor.role [
  | user ↦
      if not (deal.user_id == actor.id)
      then err deal_forbidden
      else if not (is_contract status) && not (is_cancelled status)
      then err invalid_deal_data
      else ok tt
  | manager ↦ if not (deal.employee_id == actor.id) then err deal_forbidden else ok tt
  | supervisor ↦ ok tt
  | Role.other s ↦ err deal_forbidden
]

abbrev pub some_actor : Option User → Result User
some_actor none = err deal_forbidden
some_actor (some actor) = ok actor
