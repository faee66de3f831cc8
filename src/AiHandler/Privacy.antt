-- ===== src/AiHandler/Privacy.antt =====
-- Whose words get into a client's chat (backend/internal/handler/ai.go).
use dsk_agent.Base.{
  ℕ, ◌≡◌, ◌≢◌, refl, ap, Bool, true, false, not, ◌&&◌, ◌||◌, Option, none, some, List, [], ◌∷◌,
  ◌++◌, arith, if◌then◌else◌, find, ◌==◌,
}
use dsk_agent.Base.Text.{Text, codes, is_empty}
use dsk_agent.Domain.Account.{User, user, is_user, is_manager}
use dsk_agent.Domain.Chat.{ChatSession, Message, SenderType, client, other}
use dsk_agent.Domain.Ai.{AiChatRequest, AgentChatPayload, AgentChatResponseData}
use dsk_agent.Db.{World, Store, Tables, Action, ◌>>◌, pure, attempt, query, or_throw, Columns}
use dsk_agent.Db.Laws.{IsQuiet}
use dsk_agent.Db.Keeps.{Keeps, Keeps-pure, Keeps-exec, Keeps-bind, Keeps-if, Keeps-or_throw}
use dsk_agent.Repo.Chat as Rows
use dsk_agent.ChatService as Chat
use dsk_agent.AgentService.{AgentError, Answer, output, failure}
use dsk_agent.Repo.Audit.{Audit, record_action, audit_row}
use dsk_agent.Domain.Error.{Err, Result, ok, err, chat_session_not_found}
use dsk_agent.Http.{
  bad_body, Refusal, outcome, Handler, Response, written, refusal, refuse, need, on_value, call,
}
use dsk_agent.AiHandler.{
  no_chat, ai_message, chat_audit, payload, chat_input, record_ai_action, client_message,
  finish_chat, chat_in, chat_failure, chat,
}

-- What the chats show: their messages and sessions.
abbrev pub talks : {F : Type 0} → Tables F → List Message × List ChatSession
talks t = (t.messages, t.chat_sessions)

abbrev found_row : {F : Type 0} → ℕ → ℕ → Tables F → Option ChatSession
found_row id now t = elim (find (λ cs. cs.id == id) t.chat_sessions) [
  | none ↦ none
  | some cs ↦ some (Rows.with_names t.users cs)
]

module _ {F : Type 0} (w : World F) (q : IsQuiet w) where
  abbrev KeepsTalks : {A : Type 0} → Action F A → Type 0
  KeepsTalks m = Keeps talks w m

  recorded-Keeps : (has_audit : Bool) (a : Audit) → KeepsTalks (record_ai_action has_audit a)
  unfolding record_ai_action record_action
  recorded-Keeps true a =
      let step : Columns F → ℕ → Tables F → Unit {0} × Tables F =
        λ c now t. (tt, record t { ai_audit_log = t.ai_audit_log ++ audit_row now a ∷ [] }) in
      Keeps-exec talks w q step (λ c now t. refl)
  recorded-Keeps false a = Keeps-pure talks w tt

  get_session-Keeps : (id : ℕ) → KeepsTalks {A = ChatSession} (Chat.get_session_by_id id)
  unfolding Chat.get_session_by_id Rows.get_session_by_id
  get_session-Keeps id =
      Keeps-bind talks w (query (found_row id)) (λ o. or_throw o chat_session_not_found)
        (Keeps-exec talks w q (λ c now t. (found_row id now t, t)) (λ c now t. refl))
        (λ o. Keeps-or_throw talks w o chat_session_not_found)

  -- The second branch.
  Keeps-else :
      {A : Type 0} (c : Bool) (m n : Action F A)
      → c ≡ false
      → KeepsTalks n
      → KeepsTalks (if c then m else n)
  Keeps-else true m n h p = absurd (ground (arith, h))
  Keeps-else false m n h p = p

  module _ {A B : Type 0} where
    Keeps-then :
        (m : Action F A) (n : Action F B) → KeepsTalks m → KeepsTalks n → KeepsTalks (m >> n)
    Keeps-then m n p k = Keeps-bind talks w m (λ x. n) p (λ x. k)

    Keeps-value :
        (r : Response A) (f : A → Handler F B)
        → ((a : A) → KeepsTalks (f a))
        → KeepsTalks (on_value f r)
    Keeps-value (written n a) f p s = p a s
    Keeps-value (refusal r) f p s = refl

    Keeps-need :
        (o : Option A) (r : Refusal) (f : A → Handler F B)
        → ((a : A) → KeepsTalks (f a))
        → KeepsTalks (need o r f)
    Keeps-need none r f p s = refl
    Keeps-need (some a) r f p s = p a s

    Keeps-outcome :
        (r : Err → Refusal) (f : A → Handler F B) (x : Result A)
        → ((a : A) → KeepsTalks (f a))
        → KeepsTalks (outcome r f x)
    Keeps-outcome r f (ok a) p s = p a s
    Keeps-outcome r f (err e) p s = refl

    Keeps-call :
        (m : Action F A) (r : Err → Refusal) (f : A → Handler F B)
        → KeepsTalks m
        → ((a : A) → KeepsTalks (f a))
        → KeepsTalks (call m r f)
    Keeps-call m r f p k =
        Keeps-bind talks w (attempt m) (outcome r f) p (λ x. Keeps-outcome r f x k)

  Keeps-known :
      {B : Type 0} (c : Bool) (u : User) (r : Refusal) (f : User → Handler F B)
      → KeepsTalks (f u)
      → KeepsTalks (need (if c then none else some u) r f)
  Keeps-known true u r f p = λ s. refl
  Keeps-known false u r f p = p

  module _ (has_audit : Bool) (error_text : AgentError → Text)
      (ask : AgentChatPayload → Answer AgentChatResponseData) (u : User)
      (staff : is_user u.role ≡ false) where
    silent :
        (id : ℕ) (author : Option ℕ) (sender : SenderType) (text : Text)
        → KeepsTalks (client_message has_audit error_text ask u id author sender text)
    unfolding client_message
    silent id author sender text =
        Keeps-else (is_user u.role) _ (pure tt) staff (Keeps-pure talks w tt)

    ai_message-Keeps :
        (id : ℕ) (text : Text) → KeepsTalks (ai_message has_audit error_text ask u id text)
    unfolding ai_message
    ai_message-Keeps id text =
        Keeps-if talks w (is_empty text) (pure tt) _ (Keeps-pure talks w tt)
          (silent id none (other (codes "ai")) text)

    finish_chat-Keeps :
        (req : AiChatRequest) (id : ℕ) (message : Text) (a : Answer AgentChatResponseData)
        → KeepsTalks (finish_chat has_audit error_text ask u req id message a)
    unfolding finish_chat
    finish_chat-Keeps req id message (failure e) =
        let entry = chat_audit u req message (error_text e) [] [] false in
        Keeps-then (record_ai_action has_audit entry) (refuse (chat_failure error_text e))
          (recorded-Keeps has_audit entry) (λ s. refl)
    finish_chat-Keeps req id message (output data') =
        let entry = chat_audit u req message data'.message data'.agent data'.intent true in
        Keeps-then (record_ai_action has_audit entry)
          (ai_message has_audit error_text ask u id data'.message >> pure (written 200 data'))
          (recorded-Keeps has_audit entry)
          (Keeps-then (ai_message has_audit error_text ask u id data'.message)
            (pure (written 200 data')) (ai_message-Keeps id data'.message) (λ s. refl))

    chat_in-Keeps :
        (req : AiChatRequest) (id : ℕ) (message : Text) (cs : ChatSession)
        → KeepsTalks (chat_in has_audit error_text ask u req id message cs)
    unfolding chat_in
    chat_in-Keeps req id message cs =
        let is_kept_out : Bool =
          not (Chat.can_read_session (some u) (some cs))
          || (is_manager u.role && not (Chat.can_manage_session (some u) (some cs))) in
        Keeps-if talks w is_kept_out (refuse {A = AgentChatResponseData} no_chat)
          (client_message has_audit error_text ask u id (some u.id) client message
            >> finish_chat has_audit error_text ask u req id message
                (ask (payload u req id message)))
          (λ s. refl)
          (Keeps-then (client_message has_audit error_text ask u id (some u.id) client message)
            (finish_chat has_audit error_text ask u req id message (ask (payload u req id message)))
            (silent id (some u.id) client message)
            (finish_chat-Keeps req id message (ask (payload u req id message))))

-- In a quiet world a chat of a manager or a supervisor with the agents, whatever they answer, adds no
-- message to any chat, changes none, and changes no session.
pub staff_chat-Keeps :
    {F : Type 0} (w : World F) (s : Store F) (has_audit : Bool) (error_text : AgentError → Text)
    (ask : AgentChatPayload → Answer AgentChatResponseData) (u : User) (body : Option AiChatRequest)
    → IsQuiet w
    → u.role ≢ user
    → let t = (chat has_audit error_text ask (some u) body w s).1.tables in
      (t.messages ≡ s.tables.messages) × (t.chat_sessions ≡ s.tables.chat_sessions)
unfolding chat
staff_chat-Keeps w s has_audit error_text ask u body q staff =
    let is_staff : is_user u.role ≡ false = ground arith in
    let kept =
      Keeps-need w q body bad_body _
        (λ req. Keeps-value w q (chat_input req) _ (λ input. Keeps-known w q (u.id == 0) u _ _ (
          Keeps-call w q (Chat.get_session_by_id input.0) _ _ (get_session-Keeps w q input.0)
            (chat_in-Keeps w q has_audit error_text ask u is_staff req input.0 input.1))))
        s in
    (ap (λ v. v.0) kept, ap (λ v. v.1) kept)
