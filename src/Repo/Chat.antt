-- ===== src/Repo/Chat.antt =====
-- backend/internal/repository/chat.go.
use dsk_agent.Base.{
  ℕ, ◌+◌, Bool, true, false, not, ◌&&◌, Option, none, some, List, [], ◌∷◌, ◌++◌, map, ltb, ◌==◌,
  find, any, select, update_where, opt_eq, is_some, if◌then◌else◌,
}
use dsk_agent.Base.Text.{Text}
use dsk_agent.Base.Sort.{sort}
use dsk_agent.Domain.Error.{chat_session_not_found}
use dsk_agent.Domain.Account.{User}
use dsk_agent.Domain.Chat.{
  ChatSession, ChatSessionStatus, opened, in_progress, close, same_status, ChatSessionRejection,
  Message,
}
use dsk_agent.Db.{Action, ◌>>=◌, ◌>>◌, pure, throw, or_throw, ignore, query, exec}
use dsk_agent.Repo.Deal.{user_name_of}

abbrev pub optional_name : List User → Option ℕ → Option Text
optional_name users none = none
optional_name users (some id) = user_name_of users id

-- A row of `chat_sessions` with the names of its user and its employee.
abbrev pub with_names : List User → ChatSession → ChatSession
with_names users cs = record cs {
  user_name = optional_name users cs.user_id;
  employee_name = optional_name users cs.employee_id;
}

-- The `WHERE` of `GetSessions`.
abbrev pub is_listed : Option ℕ → Option ℕ → Option ChatSessionStatus → ChatSession → Bool
is_listed user_id employee_id status cs =
    elim user_id [
      | some id ↦ opt_eq cs.user_id (some id) && not cs.deleted_by_user
      | none ↦ not (cs.deleted_by_user && not (is_some cs.employee_id))
    ]
    && elim employee_id [ none ↦ true | some id ↦ opt_eq cs.employee_id (some id) ]
    && elim status [ none ↦ true | some st ↦ same_status cs.status st ]

-- `id_user IS NULL OR id_user != $2`, or no user to exclude.
abbrev pub from_another : Option ℕ → Option ℕ → Bool
from_another none author = true
from_another (some id) none = true
from_another (some id) (some author) = not (author == id)

module _ {F : Type 0} where
  -- Runs an `UPDATE` of the sessions that pass the test; no such row is an error.
  unfoldable pub update_sessions :
      (ChatSession → Bool) → (ℕ → ChatSession → ChatSession) → Action F (Unit {0})
  update_sessions test change = do
    touched ← exec {A = Bool} λ c now t. (
      any test t.chat_sessions,
      record t { chat_sessions = update_where test (change now) t.chat_sessions },
    )
    if touched then pure tt else throw chat_session_not_found

  -- `CreateSession`.
  unfoldable pub create_session : ChatSession → Action F ChatSession
  create_session cs = exec λ c now t.
      let row : ChatSession = record cs {
        id = t.next_id;
        status = opened;
        deleted_by_user = false;
        created_at = now;
        updated_at = now;
        user_name = none;
        employee_name = none;
      } in
      (row, record t { next_id = t.next_id + 1; chat_sessions = t.chat_sessions ++ row ∷ [] })

  -- `GetSessionByID`.
  unfoldable pub get_session_by_id : ℕ → Action F ChatSession
  get_session_by_id id = do
    found ← query λ now t. elim (find (λ cs. cs.id == id) t.chat_sessions) [
      | none ↦ none
      | some cs ↦ some (with_names t.users cs)
    ]
    or_throw found chat_session_not_found

  -- `GetSessions`, `ORDER BY updated_at DESC`.
  unfoldable pub get_sessions :
      Option ℕ → Option ℕ → Option ChatSessionStatus → Action F (List ChatSession)
  get_sessions user_id employee_id status = query λ now t. map (with_names t.users) (
      sort (λ a b. ltb b.updated_at a.updated_at)
        (select (is_listed user_id employee_id status) t.chat_sessions))

  -- `TakeSession`: only a session that has no employee.
  unfoldable pub take_session : ℕ → ℕ → Action F (Unit {0})
  unfolding update_sessions
  take_session session_id employee_id =
      update_sessions (λ cs. (cs.id == session_id) && not (is_some cs.employee_id))
        (λ now cs. record cs {
          employee_id = some employee_id;
          status = in_progress;
          updated_at = now;
        })

  -- `UpdateSessionStatus`.
  unfoldable pub update_session_status : ℕ → ChatSessionStatus → Action F (Unit {0})
  unfolding update_sessions
  update_session_status session_id status =
      update_sessions (λ cs. cs.id == session_id)
        (λ now cs. record cs { status = status; updated_at = now })

  -- `CloseSession`.
  unfoldable pub close_session : ℕ → Action F (Unit {0})
  unfolding update_session_status
  close_session session_id = update_session_status session_id close

  -- `DeleteSessionForUser`.
  unfoldable pub delete_session_for_user : ℕ → ℕ → Action F (Unit {0})
  unfolding update_sessions
  delete_session_for_user session_id user_id =
      update_sessions (λ cs. (cs.id == session_id) && opt_eq cs.user_id (some user_id))
        (λ now cs. record cs { deleted_by_user = true; updated_at = now })

  -- `CreateRejection`: the session is closed by a second statement, whose error is dropped.
  unfoldable pub create_rejection : ChatSessionRejection → Action F ChatSessionRejection
  unfolding close_session
  create_rejection rejection = do
    row ← exec λ c now t.
        let row : ChatSessionRejection = record rejection {
          id = t.next_id;
          created_at = now;
          employee_name = none;
        } in
        (
          row,
          record t {
            next_id = t.next_id + 1;
            chat_session_rejections = t.chat_session_rejections ++ row ∷ [];
          },
        )
    ignore (close_session rejection.chat_session_id)
    pure row

  -- `GetRejectionsBySessionID`, `ORDER BY created_at DESC`.
  unfoldable pub get_rejections_by_session_id : ℕ → Action F (List ChatSessionRejection)
  get_rejections_by_session_id session_id = query λ now t.
      map {A = ChatSessionRejection} {B = ChatSessionRejection}
        (λ r. record r { employee_name = user_name_of t.users r.employee_id })
        (sort (λ a b. ltb b.created_at a.created_at)
          (select (λ r. r.chat_session_id == session_id) t.chat_session_rejections))

  -- `CreateMessage`: the session's time is set by a second statement, whose error is dropped.
  unfoldable pub create_message : Message → Action F Message
  create_message msg = do
    row ← exec λ c now t.
        let row : Message = record msg { id = t.next_id; sended_at = now; sender_name = none } in
        (row, record t { next_id = t.next_id + 1; messages = t.messages ++ row ∷ [] })
    ignore (
        exec {A = Unit {0}} λ c now t. (
          tt,
          record t {
            chat_sessions =
                update_where (λ cs. cs.id == msg.chat_session_id)
                  (λ cs. record cs { updated_at = now }) t.chat_sessions;
          },
        ))
    pure row

  -- `GetMessagesBySessionID`, `ORDER BY sended_at ASC`.
  unfoldable pub get_messages_by_session_id : ℕ → Action F (List Message)
  get_messages_by_session_id session_id = query λ now t.
      map {A = Message} {B = Message}
        (λ m. record m { sender_name = optional_name t.users m.user_id })
        (sort (λ a b. ltb a.sended_at b.sended_at)
          (select (λ m. m.chat_session_id == session_id) t.messages))

  -- `MarkMessagesAsRead`.
  unfoldable pub mark_messages_as_read : ℕ → Option ℕ → Action F (Unit {0})
  mark_messages_as_read session_id excluding_user_id = exec λ c now t.
      let test = λ (m : Message).
        (m.chat_session_id == session_id)
        && from_another excluding_user_id m.user_id
        && not m.is_read in
      (tt, record t { messages = update_where test (λ m. record m { is_read = true }) t.messages })
