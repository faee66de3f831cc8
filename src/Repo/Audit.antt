-- ===== src/Repo/Audit.antt =====
-- backend/internal/repository/ai_audit.go.
use dsk_agent.Base.{ℕ, Bool, Option, none, some, [], ◌∷◌, ◌++◌}
use dsk_agent.Base.Text.{Text}
use dsk_agent.Domain.Ai.{AuditEntry}
use dsk_agent.Db.{Action, exec}

-- `NULLIF(s, '')`.
abbrev pub null_if_empty : Text → Option Text
null_if_empty [] = none
null_if_empty (c ∷ s) = some (c ∷ s)

-- What `Record` is called with.
pub record Audit : Type 0 where
  pub actor_id : ℕ
  pub deal_id : Option ℕ
  pub session_id : Option ℕ
  pub action : Text
  pub request_text : Text
  pub response_text : Text
  pub agent : Text
  pub intent : Text
  pub is_success : Bool

abbrev pub audit_row : ℕ → Audit → AuditEntry
audit_row now a = record {
  actor_id = a.actor_id;
  deal_id = a.deal_id;
  chat_session_id = a.session_id;
  action = a.action;
  request_text = a.request_text;
  response_text = null_if_empty a.response_text;
  agent = null_if_empty a.agent;
  intent = null_if_empty a.intent;
  is_success = a.is_success;
  created_at = now;
}

-- `Record`.
unfoldable pub record_action : {F : Type 0} → Audit → Action F (Unit {0})
record_action a =
    exec λ c now t. (tt, record t { ai_audit_log = t.ai_audit_log ++ audit_row now a ∷ [] })
