-- ===== src/AiHandler/Answered.antt =====
-- The handlers of backend/internal/handler/ai.go and dialog_ai.go answer every request.
use dsk_agent.Base.{
  ℕ, ◌≡◌, refl, Bool, true, false, not, Option, none, some, [], arith, ◌==◌, if◌then◌else◌,
}
use dsk_agent.Base.Text.{Text, codes, is_empty}
use dsk_agent.Domain.Account.{User, is_user}
use dsk_agent.Domain.Chat.{ChatSession, SenderType, client, other}
use dsk_agent.Domain.Ai.{
  AiChatRequest, AgentChatPayload, AgentChatResponseData, DialogReplyAssistRequest,
  DialogReplyAssistResponseData,
}
use dsk_agent.Domain.Error.{ok}
use dsk_agent.Db.{World, Store, Action, ◌>>=◌, ◌>>◌, pure, ignore}
use dsk_agent.Db.Laws.{bind-run}
use dsk_agent.Repo.Audit.{Audit, record_action}
use dsk_agent.ChatService as Chat
use dsk_agent.DealService as Deals
use dsk_agent.AgentService.{AgentError, Answer, output, failure}
use dsk_agent.Http.{forbidden, bad_body, Handler, written, refuse}
use dsk_agent.Http.Answered.{
  Answers, IsFine, IsResponse, Answers-if, Answers-refuse, Answers-need, Answers-value,
  Answers-call, Answers-written,
}
use dsk_agent.AiHandler.{
  no_chat, ai_message, chat_audit, payload, chat_input, known, record_ai_action, client_message,
  finish_chat, chat_in, chat_failure, chat,
}
use dsk_agent.AiHandler.Dialog.{
  agent_failure, may_use, can_use_deal, with_deal, trimmed, analyzed, assisted, analyze,
  reply_assist,
}

-- It returns a value, whatever the database does.
abbrev pub Returns : {F A : Type 0} → Action F A → Type 0
Returns {F = F} {A = A} m =
    (w : World F) (s : Store F) → (a : A) × (s' : Store F) × (m w s ≡ (ok a, s'))

module _ {F A B : Type 0} where
  Answers-bind :
      (m : Action F A) (f : A → Handler F B)
      → Returns m
      → ((a : A) → Answers (f a))
      → Answers (m >>= f)
  Answers-bind m f p q w s = let (a, s1, e) = p w s in rw (bind-run m f w s e) (q a w s1)

  Answers-after : (m : Action F A) (n : Handler F B) → Returns m → Answers n → Answers (m >> n)
  Answers-after m n p q = Answers-bind m (λ x. n) p (λ x. q)

chat_failure-IsFine :
    (error_text : AgentError → Text) (e : AgentError) → IsFine (chat_failure error_text e)
unfolding chat_failure
chat_failure-IsFine error_text e = ground arith

agent_failure-IsFine :
    (error_text : AgentError → Text) (e : AgentError) → IsFine (agent_failure error_text e)
unfolding agent_failure
agent_failure-IsFine error_text e = ground arith

chat_input-IsResponse : (req : AiChatRequest) → IsResponse (chat_input req)
unfolding chat_input
chat_input-IsResponse req = ground arith

Returns-if :
    {F A : Type 0} (c : Bool) (m k : Action F A)
    → Returns m
    → Returns k
    → Returns (if c then m else k)
Returns-if true m k p q = p
Returns-if false m k p q = q

Returns-ignore : {F A : Type 0} (m : Action F A) → Returns (ignore m)
Returns-ignore m w s = (tt, (m w s).1, refl)

Returns-pure : {F A : Type 0} (a : A) → Returns {F = F} (pure a)
Returns-pure a w s = (a, s, refl)

module _ {F : Type 0} (has_audit : Bool) where
  recorded-Returns : (a : Audit) → Returns {F = F} (record_ai_action has_audit a)
  unfolding record_ai_action
  recorded-Returns a =
      Returns-if has_audit (ignore (record_action a)) (pure tt) (Returns-ignore (record_action a))
        (Returns-pure tt)

  module _ (error_text : AgentError → Text) where
    module _ (ask : AgentChatPayload → Answer AgentChatResponseData) (u : User) where
      client_message-Returns :
          (id : ℕ) (author : Option ℕ) (sender : SenderType) (text : Text)
          → Returns {F = F} (client_message has_audit error_text ask u id author sender text)
      unfolding client_message
      client_message-Returns id author sender text =
          Returns-if (is_user u.role) (ignore (Chat.send_message id author sender text)) (pure tt)
            (Returns-ignore (Chat.send_message id author sender text)) (Returns-pure tt)

      ai_message-Returns :
          (id : ℕ) (text : Text) → Returns {F = F} (ai_message has_audit error_text ask u id text)
      unfolding ai_message
      ai_message-Returns id text =
          Returns-if (is_empty text) (pure tt) _ (Returns-pure tt)
            (client_message-Returns id none (other (codes "ai")) text)

      finish_chat-Answers :
          (req : AiChatRequest) (id : ℕ) (message : Text) (a : Answer AgentChatResponseData)
          → Answers {F = F} (finish_chat has_audit error_text ask u req id message a)
      unfolding finish_chat
      finish_chat-Answers req id message (failure e) =
          let entry = chat_audit u req message (error_text e) [] [] false in
          Answers-after (record_ai_action has_audit entry) (refuse (chat_failure error_text e))
            (recorded-Returns entry)
            (Answers-refuse AgentChatResponseData (chat_failure error_text e)
              (chat_failure-IsFine error_text e))
      finish_chat-Answers req id message (output data') =
          let entry = chat_audit u req message data'.message data'.agent data'.intent true in
          Answers-after (record_ai_action has_audit entry)
            (ai_message has_audit error_text ask u id data'.message >> pure (written 200 data'))
            (recorded-Returns entry)
            (Answers-after (ai_message has_audit error_text ask u id data'.message)
              (pure (written 200 data')) (ai_message-Returns id data'.message)
              (Answers-written 200 data' (omega arith) (omega arith)))

      chat_in-Answers :
          (req : AiChatRequest) (id : ℕ) (message : Text) (cs : ChatSession)
          → Answers {F = F} (chat_in has_audit error_text ask u req id message cs)
      unfolding chat_in
      chat_in-Answers req id message cs =
          Answers-if _ (refuse no_chat) _
            (Answers-refuse AgentChatResponseData no_chat (omega arith))
            (Answers-after (client_message has_audit error_text ask u id (some u.id) client message)
              (finish_chat has_audit error_text ask u req id message
                (ask (payload u req id message)))
              (client_message-Returns id (some u.id) client message)
              (finish_chat-Answers req id message (ask (payload u req id message))))

    pub chat-Answers :
        (ask : AgentChatPayload → Answer AgentChatResponseData) (u : Option User)
        (body : Option AiChatRequest)
        → Answers {F = F} (chat has_audit error_text ask u body)
    unfolding chat
    chat-Answers ask u body = Answers-need body bad_body _ (omega arith) λ req.
        Answers-value (chat_input req) _ (chat_input-IsResponse req) λ input.
          Answers-need (known u) _ _ (omega arith) λ v.
            Answers-call (Chat.get_session_by_id input.0) _ _ (λ e. omega arith)
              (chat_in-Answers ask v req input.0 input.1)

    can_use_deal-Returns : (u : Option User) (id : ℕ) → Returns {F = F} (can_use_deal u id)
    unfolding can_use_deal
    can_use_deal-Returns none id w s = (false, s, refl)
    can_use_deal-Returns (some u) id w s =
        let found = Deals.get_deal_by_id id w s in (may_use (some u) found.0, found.1, refl)

    with_deal-Answers :
        {A : Type 0} (v : User) (id : ℕ) (f : User → Handler F A)
        → ((a : User) → Answers (f a))
        → Answers {F = F} (with_deal (some v) id f)
    with_deal-Answers {A} v id f p =
        Answers-bind (can_use_deal (some v) id)
          (λ allowed. if not allowed then refuse {A = A} forbidden else f v)
          (can_use_deal-Returns (some v) id)
          λ allowed.
            Answers-if (not allowed) (refuse {A = A} forbidden) (f v)
              (Answers-refuse A forbidden (omega arith)) (p v)

    -- The audit of an answer or of an error, and then the answer or the error.
    audited-Answers :
        {A : Type 0} (a : Audit) (n : Handler F A)
        → Answers n
        → Answers (record_ai_action has_audit a >> n)
    audited-Answers a n p = Answers-after (record_ai_action has_audit a) n (recorded-Returns a) p

    failed-Answers :
        (A : Type 0) (e : AgentError)
        → Answers {F = F} {A = A} (refuse (agent_failure error_text e))
    failed-Answers A e =
        Answers-refuse A (agent_failure error_text e) (agent_failure-IsFine error_text e)

    analyzed-Answers :
        (v : User) (id : ℕ) (answer : Answer Text)
        → Answers {F = F} (analyzed has_audit error_text v id answer)
    unfolding analyzed
    analyzed-Answers v id (failure e) =
        audited-Answers _ (refuse (agent_failure error_text e)) (failed-Answers Text e)
    analyzed-Answers v id (output text) =
        audited-Answers _ (pure (written 200 text))
          (Answers-written 200 text (omega arith) (omega arith))

    pub analyze-Answers :
        (ask : ℕ → ℕ → Answer Text) (v : User) (body : Option ℕ)
        → Answers {F = F} (analyze has_audit error_text ask (some v) body)
    unfolding analyze
    analyze-Answers ask v body = Answers-need body bad_body _ (omega arith) λ id.
        let told = λ (a : User). analyzed has_audit error_text a id (ask id a.id) in
        Answers-if (id == 0) (refuse bad_body) (with_deal (some v) id told)
          (Answers-refuse Text bad_body (omega arith))
          (with_deal-Answers v id told λ a. analyzed-Answers a id (ask id a.id))

    assisted-Answers :
        (v : User) (id : ℕ) (selected : Option Text) (answer : Answer DialogReplyAssistResponseData)
        → Answers {F = F} (assisted has_audit error_text v id selected answer)
    unfolding assisted
    assisted-Answers v id selected (failure e) =
        audited-Answers _ (refuse (agent_failure error_text e))
          (failed-Answers DialogReplyAssistResponseData e)
    assisted-Answers v id selected (output data') =
        audited-Answers _ (pure (written 200 data'))
          (Answers-written 200 data' (omega arith) (omega arith))

    pub reply_assist-Answers :
        (ask : ℕ → ℕ → Option Text → Answer DialogReplyAssistResponseData) (v : User)
        (body : Option DialogReplyAssistRequest)
        → Answers {F = F} (reply_assist has_audit error_text ask (some v) body)
    unfolding reply_assist
    reply_assist-Answers ask v body = Answers-need body bad_body _ (omega arith) λ input.
        let id = input.deal_id in
        let selected = trimmed input.selected_text in
        let told =
          λ (a : User). assisted has_audit error_text a id selected (ask id a.id selected) in
        Answers-if (id == 0) (refuse bad_body) (with_deal (some v) id told)
          (Answers-refuse DialogReplyAssistResponseData bad_body (omega arith))
          (with_deal-Answers v id told λ a. assisted-Answers a id selected (ask id a.id selected))
