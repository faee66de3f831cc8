-- ===== src/ChatService/Rules.antt =====
-- Who may see and manage a chat session, and who takes one (backend/internal/handler/chat.go and
-- backend/internal/repository/chat.go).
use dsk_agent.Base.{
  ℕ, ◌+◌, sym, ap, ◌∙◌, false, Bool, not, ◌&&◌, any, update_where, is_some, if◌then◌else◌, ◌≢◌, ◌≡◌,
  ◌↔◌, ◌⊎◌, refl, none, some, true, arith, ◌==◌,
}
use dsk_agent.Domain.Account.{User, user, manager, supervisor}
use dsk_agent.Domain.Chat.{ChatSession}
use dsk_agent.Base.Rows.{any-update_where}
use dsk_agent.Domain.Error.{ok, err, chat_session_not_found}
use dsk_agent.Domain.Chat.{in_progress}
use dsk_agent.Db.{World, Store, Columns, Tables, Action, exec, pure, throw}
use dsk_agent.Db.Laws.{IsQuiet, exec-quiet, bind-run}
use dsk_agent.Repo.Chat.{take_session, update_sessions}
use dsk_agent.ChatService.{can_read_session, can_manage_session}

-- A session is read by supervisors, by managers as long as nobody else has it, and by its own user.
pub can_read_session_lem :
    (u : User) (cs : ChatSession)
    → (can_read_session (some u) (some cs) ≡ true) ↔ (
        (u.role ≡ supervisor)
        ⊎ ((u.role ≡ manager) × ((cs.employee_id ≡ none) ⊎ (cs.employee_id ≡ some u.id)))
        ⊎ ((u.role ≡ user) × (cs.user_id ≡ some u.id)))
unfolding can_read_session
can_read_session_lem u cs = ground arith

-- Who manages a session also reads it, unless it is a general one that another manager has.
pub manage-read :
    (u : User) (cs : ChatSession)
    → can_manage_session (some u) (some cs) ≡ true
    → (can_read_session (some u) (some cs) ≡ true)
      ⊎ ((u.role ≡ manager)
          × (cs.apartment_id ≡ none)
          × ((e : ℕ) × (cs.employee_id ≡ some e) × (e ≢ u.id)))
unfolding can_read_session can_manage_session
manage-read u cs h = ground arith

answered :
    {F : Type 0} (w : World F) (x s' : Store F) (c : Bool)
    → (if c then pure tt else throw chat_session_not_found) w x ≡ (ok tt, s')
    → x ≡ s'
answered w x s' true h = ground (arith, h)
answered w x s' false h = absurd (ground (arith, h))

-- In a quiet world a session that an employee has taken cannot be taken again.
pub taken_once :
    {F : Type 0} (w : World F) (s : Store F) (session_id a b : ℕ) (s' : Store F)
    → IsQuiet w
    → take_session session_id a w s ≡ (ok tt, s')
    → (take_session session_id b w s').0 ≡ err chat_session_not_found
unfolding take_session update_sessions
taken_once {F = F} w s session_id a b s' quiet h =
    let test : ChatSession → Bool = λ cs. (cs.id == session_id) && not (is_some cs.employee_id) in
    let take : ℕ → ℕ → ChatSession → ChatSession =
      λ e now cs. record cs { employee_id = some e; status = in_progress; updated_at = now } in
    let step : ℕ → Columns F → ℕ → Tables F → Bool × Tables F = λ e c now t. (
      any test t.chat_sessions,
      record t { chat_sessions = update_where test (take e now) t.chat_sessions },
    ) in
    let answer : Bool → Action F (Unit {0}) =
      λ touched. if touched then pure tt else throw chat_session_not_found in
    let ran = bind-run (exec (step a)) answer w s (exec-quiet w quiet (step a) s) in
    let again = bind-run (exec (step b)) answer w s' (exec-quiet w quiet (step b) s') in
    let cleared =
      any-update_where test (take a (w.slot s.tick).now) (λ cs. ground arith)
        s.tables.chat_sessions in
    let end : record s {
      tables = (step a w.columns (w.slot s.tick).now s.tables).1;
      tick = s.tick + 1;
    }
        ≡ s' =
      answered w _ s' (any test s.tables.chat_sessions) (sym ran ∙ h) in
    let none_left : any test s'.tables.chat_sessions ≡ false =
      ap (λ x. any test x.tables.chat_sessions) (sym end) ∙ cleared in
    ap (λ r. r.0) again ∙ rw none_left refl
