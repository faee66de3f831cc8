-- ===== src/Tests/Chats.antt =====
-- The chat handlers of backend/internal/handler/chat.go at concrete requests.
use dsk_agent.Base.{false, ◌≡◌, ◌==◌, refl, find, some, none}
use dsk_agent.Base.Text.{Text, codes, trim_space}
use dsk_agent.Domain.Account.{User, user, supervisor}
use dsk_agent.Domain.Chat.{ChatSession, ChatSessionRejection, Message, client}
use dsk_agent.Db.{exec, run_statement}
use dsk_agent.Repo.Chat as Rows
use dsk_agent.Repo.Reads.{first_tables}
use dsk_agent.ChatService as Service
use dsk_agent.ChatHandler as Handler
use dsk_agent.ChatHandler.Rules.{
  IsAuthorOf, IsManagerOf, send_message-IsAuthor, reject_session-IsManager,
}
use dsk_agent.Tests.Data.{person, state, quiet_world}

abbrev hello : Message
hello = record {
  id = 100;
  chat_session_id = 40;
  user_id = some 1;
  sender_type = client;
  content = codes "hello";
  is_read = false;
  sended_at = 60;
  sender_name = none;
}

send_message-IsAuthor_example :
    (v : User) × (row : ChatSession) × (content : Text) × (some (person 1 user) ≡ some v)
    × (some (codes " hello ") ≡ some content)
    × (find (λ r. r.id == 40) (first_tables quiet_world state).chat_sessions ≡ some row)
    × IsAuthorOf v row hello
    × (hello.user_id ≡ some v.id)
    × (hello.chat_session_id ≡ 40)
    × (hello.content ≡ trim_space content)
unfolding exec run_statement Rows.get_session_by_id Rows.create_message Service.get_session_by_id
    Service.send_message Service.can_read_session Handler.find_authorized_session
    Handler.send_message trim_space
send_message-IsAuthor_example =
    send_message-IsAuthor quiet_world state (some (person 1 user)) 40 201 (some (codes " hello "))
      hello _ refl

abbrev turned_down : ChatSessionRejection
turned_down = record {
  id = 100;
  chat_session_id = 40;
  employee_id = 3;
  reason = codes "sold";
  created_at = 60;
  employee_name = none;
}

reject_session-IsManager_example :
    (v : User) × (row : ChatSession) × (reason : Text) × (some (person 3 supervisor) ≡ some v)
    × (some (codes "sold ") ≡ some reason)
    × (find (λ r. r.id == 40) (first_tables quiet_world state).chat_sessions ≡ some row)
    × IsManagerOf v row
    × (turned_down.employee_id ≡ v.id)
    × (turned_down.chat_session_id ≡ 40)
    × (turned_down.reason ≡ trim_space reason)
unfolding exec run_statement Rows.get_session_by_id Rows.create_rejection Service.get_session_by_id
    Service.reject_session Service.can_manage_session Handler.find_authorized_session
    Handler.reject_session trim_space
reject_session-IsManager_example =
    reject_session-IsManager quiet_world state (some (person 3 supervisor)) 40 201
      (some (codes "sold ")) turned_down _ refl
