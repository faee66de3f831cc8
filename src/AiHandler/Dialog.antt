-- ===== src/AiHandler/Dialog.antt =====
-- The handlers of backend/internal/handler/dialog_ai.go.
use dsk_agent.Base.{
  ℕ, Bool, true, false, not, ◌&&◌, ◌||◌, Option, none, some, [], ◌==◌, if◌then◌else◌,
}
use dsk_agent.Base.Text.{Text, codes, text_eq, trim_space, is_empty}
use dsk_agent.Domain.Error.{Result, ok, err}
use dsk_agent.Domain.Account.{User, is_manager, is_supervisor}
use dsk_agent.Domain.Deal.{Deal}
use dsk_agent.Domain.Ai.{DialogReplyAssistRequest, DialogReplyAssistResponseData}
use dsk_agent.Db.{Action, ◌>>=◌, ◌>>◌, pure, attempt}
use dsk_agent.Repo.Audit.{Audit}
use dsk_agent.DealService as Deals
use dsk_agent.AgentService.{AgentError, Answer, output, failure, agent_error, response_timeout}
use dsk_agent.Http.{
  Refusal, http_error, panicked, written, forbidden, bad_body, Handler, refuse, need,
}
use dsk_agent.AiHandler.{record_ai_action}

-- `writeAgentError`.
unfoldable pub agent_failure : (AgentError → Text) → AgentError → Refusal
agent_failure error_text (agent_error code text) =
    if text_eq code (codes "FORBIDDEN")
    then http_error 403 text
    else if text_eq code (codes "NO_CLIENT_MESSAGES") || text_eq code (codes "VALIDATION_ERROR")
    then http_error 422 text
    else http_error 502 text
agent_failure error_text response_timeout = http_error 504 (error_text response_timeout)
agent_failure error_text e = http_error 503 (error_text e)

abbrev pub trimmed : Option Text → Option Text
trimmed none = none
trimmed (some s) = if is_empty (trim_space s) then none else some (trim_space s)

abbrev or_empty : Option Text → Text
or_empty none = []
or_empty (some s) = s

abbrev pub dialog_audit : User → ℕ → Text → Text → Text → Text → Text → Bool → Audit
dialog_audit u deal_id action request response agent intent is_success = record {
  actor_id = u.id;
  deal_id = some deal_id;
  session_id = none;
  action = action;
  request_text = request;
  response_text = response;
  agent = agent;
  intent = intent;
  is_success = is_success;
}

module _ {F : Type 0} where
  -- Whether `canUseDeal` lets the actor use the deal that was read.
  unfoldable pub may_use : Option User → Result (Deal F) → Bool
  may_use none r = false
  may_use (some u) (err e) = false
  may_use (some u) (ok deal) =
      is_supervisor u.role || (is_manager u.role && (deal.employee_id == u.id))

  -- `canUseDeal`: without an actor no statement is run.
  unfoldable pub can_use_deal : Option User → ℕ → Action F Bool
  unfolding may_use
  can_use_deal none deal_id = pure false
  can_use_deal (some u) deal_id = do
    deal ← attempt (Deals.get_deal_by_id deal_id)
    pure (may_use (some u) deal)

  -- The deal is one that the user may use.
  abbrev pub with_deal : {A : Type 0} → Option User → ℕ → (User → Handler F A) → Handler F A
  with_deal u deal_id f = do
    allowed ← can_use_deal u deal_id
    if not allowed then refuse forbidden else need u panicked f

module _ {F : Type 0} (has_audit : Bool) where
  module _ (error_text : AgentError → Text) where
    -- The answer or the error of the agents, with its audit.
    unfoldable pub analyzed : User → ℕ → Answer Text → Handler F Text
    unfolding record_ai_action agent_failure
    analyzed v deal_id answer =
        let entry : Text → Bool → Audit = λ text.
          dialog_audit v deal_id (codes "dialog.analyze") (codes "analyze dialog") text
            (codes "analytics") (codes "extract_client_facts") in
        elim answer [
          | failure e ↦
              record_ai_action has_audit (entry (error_text e) false)
              >> refuse (agent_failure error_text e)
          | output text ↦ record_ai_action has_audit (entry text true) >> pure (written 200 text)
        ]

    -- `Analyze`, whose body is the deal's id; the answer is its JSON text.
    unfoldable pub analyze : (ℕ → ℕ → Answer Text) → Option User → Option ℕ → Handler F Text
    unfolding can_use_deal analyzed
    analyze ask u body = need body bad_body λ deal_id.
        if deal_id == 0
        then refuse bad_body
        else with_deal u deal_id λ v. analyzed v deal_id (ask deal_id v.id)

    unfoldable pub assisted :
        User
        → ℕ
        → Option Text
        → Answer DialogReplyAssistResponseData
        → Handler F DialogReplyAssistResponseData
    unfolding record_ai_action agent_failure
    assisted v deal_id selected answer =
        let entry = dialog_audit v deal_id (codes "dialog.reply_assist") (or_empty selected) in
        elim answer [
          | failure e ↦
              record_ai_action has_audit
                (entry (error_text e) (codes "negotiation") (codes "reply_assist") false)
              >> refuse (agent_failure error_text e)
          | output data' ↦
              record_ai_action has_audit
                (entry data'.suggested_reply (codes "negotiation") data'.intent true)
              >> pure (written 200 data')
        ]

    -- `ReplyAssist`.
    unfoldable pub reply_assist :
        (ℕ → ℕ → Option Text → Answer DialogReplyAssistResponseData)
        → Option User
        → Option DialogReplyAssistRequest
        → Handler F DialogReplyAssistResponseData
    unfolding can_use_deal assisted
    reply_assist ask u body = need body bad_body λ input.
        if input.deal_id == 0
        then refuse bad_body
        else with_deal u input.deal_id λ v.
          assisted v input.deal_id (trimmed input.selected_text)
            (ask input.deal_id v.id (trimmed input.selected_text))
