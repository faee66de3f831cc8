-- ===== src/ChatHandler/Rules.antt =====
-- Who closes, rejects and answers a chat session (backend/internal/handler/chat.go).
use dsk_agent.Base.{
  ℕ, Bool, true, false, not, ◌≡◌, ◌⊎◌, refl, sym, ap, ◌∙◌, Option, none, some, inl, inr, arith,
  Option-cases, if◌then◌else◌, find, ◌==◌,
}
use dsk_agent.Base.Text.{Text, trim_space}
use dsk_agent.Domain.Error.{ok}
use dsk_agent.Domain.Account.{User, user, manager, supervisor}
use dsk_agent.Domain.Chat.{ChatSession, ChatSessionRejection, Message, SenderType, client}
use dsk_agent.Domain.Chat as Chat
use dsk_agent.Db.{World, Store, pure, exec, run_statement}
use dsk_agent.Db.Laws.{bind-ok}
use dsk_agent.Repo.Chat as Rows
use dsk_agent.Repo.Reads.{first_tables}
use dsk_agent.ChatService as Service
use dsk_agent.ChatService.{can_read_session, can_manage_session, new_message}
use dsk_agent.Http.{bad_body, panicked, on_value, refuse, forbidden, written, http_cause, Handler}
use dsk_agent.Http.Steps.{after-call, after-value, after-need, after-test}
use dsk_agent.ChatHandler.{
  may_answer, sender_of, authorized, find_authorized_session, send_message, close_session,
  reject_session,
}

-- A supervisor, or a manager who has the session or whose session is a general one.
abbrev pub IsManagerOf : User → ChatSession → Type 0
IsManagerOf u cs =
    (u.role ≡ supervisor)
    ⊎ ((u.role ≡ manager) × ((cs.apartment_id ≡ none) ⊎ (cs.employee_id ≡ some u.id)))

-- The client of the session who writes as the client, or one of those who write as the manager.
abbrev pub IsAuthorOf : User → ChatSession → Message → Type 0
IsAuthorOf u cs m =
    ((u.role ≡ user) × (cs.user_id ≡ some u.id) × (m.sender_type ≡ client))
    ⊎ (IsManagerOf u cs × (m.sender_type ≡ Chat.manager))

managed :
    (u : Option User) (cs : ChatSession)
    → can_manage_session u (some cs) ≡ true
    → (v : User) × (u ≡ some v) × IsManagerOf v cs
unfolding can_manage_session
managed none cs h = absurd (ground (arith, h))
managed (some v) cs h = (v, refl, ground arith)

author :
    (v : User) (cs : ChatSession) (m : Message)
    → can_read_session (some v) (some cs) ≡ true
    → not (may_answer v cs) ≡ false
    → m.sender_type ≡ sender_of v.role
    → IsAuthorOf v cs m
unfolding can_read_session can_manage_session
author v cs m read may sender = ground arith

module _ {F : Type 0} (w : World F) (s : Store F) (id : ℕ) where
  found_row :
      (cs : ChatSession) (s1 : Store F)
      → Service.get_session_by_id id w s ≡ (ok cs, s1)
      → (row : ChatSession) × (find (λ r. r.id == id) (first_tables w s).chat_sessions ≡ some row)
        × (cs ≡ Rows.with_names (first_tables w s).users row)
  unfolding Service.get_session_by_id Rows.get_session_by_id exec run_statement
  found_row cs s1 h =
      elim (Option-cases (find (λ r. r.id == id) (first_tables w s).chat_sessions)) [
        | inl nothing ↦ absurd (ground (arith, nothing, h))
        | inr (row, found) ↦ (row, found, ground (arith, found, h))
      ]

  allowed_value :
      (c : Bool) (cs : ChatSession) (s1 : Store F) {n : ℕ} {a : ChatSession} {s' : Store F}
      → (if c then pure (written 200 cs) else refuse forbidden) w s1 ≡ (ok (written n a), s')
      → (c ≡ true) × (cs ≡ a)
  allowed_value true cs s1 h = ground (arith, h)
  allowed_value false cs s1 h = absurd (ground (arith, h))

  module _ (u : Option User) (manage : Bool) where
    abbrev check : ChatSession → Bool
    check cs = if manage then can_manage_session u (some cs) else can_read_session u (some cs)

    found_session :
        {n : ℕ} {cs : ChatSession} {s1 : Store F}
        → find_authorized_session u id manage w s ≡ (ok (written n cs), s1)
        → (row : ChatSession) × (find (λ r. r.id == id) (first_tables w s).chat_sessions ≡ some row)
          × (cs ≡ Rows.with_names (first_tables w s).users row)
          × (check cs ≡ true)
    unfolding find_authorized_session
    found_session h =
        let (read, s1, e, h1) =
          after-call w s (Service.get_session_by_id id) (http_cause 404) _ h in
        let (row, found, named) = found_row read s1 e in
        let (allowed, same) = allowed_value (check read) read s1 h1 in
        (row, found, sym same ∙ named, ap check (sym same) ∙ allowed)

    after-authorized :
        {B : Type 0} {n : ℕ} {b : B} {s' : Store F} (f : ChatSession → Handler F B)
        → authorized u id manage f w s ≡ (ok (written n b), s')
        → (row : ChatSession) × (find (λ r. r.id == id) (first_tables w s).chat_sessions ≡ some row)
          × (check (Rows.with_names (first_tables w s).users row) ≡ true)
          × (s1 : Store F) × (f (Rows.with_names (first_tables w s).users row) w s1
              ≡ (ok (written n b), s'))
    after-authorized f h =
        let (r, s1, e, h1) = bind-ok (find_authorized_session u id manage) (on_value f) w s _ _ h in
        let (k, cs, is_value, h2) = after-value w s1 r f h1 in
        let (row, found, named, allowed) = found_session (rw is_value at e) in
        (row, found, ap check (sym named) ∙ allowed, s1, ap (λ c. f c w s1) (sym named) ∙ h2)

module _ {F : Type 0} (w : World F) (s : Store F) (id account : ℕ) where
  rejection_of :
      (reason : Text) (r : ChatSessionRejection) (s' : Store F)
      → Service.reject_session id account reason w s ≡ (ok r, s')
      → (r.employee_id ≡ account) × (r.chat_session_id ≡ id) × (r.reason ≡ trim_space reason)
  unfolding Service.reject_session Rows.create_rejection exec run_statement
  rejection_of reason r s' h = ground arith

  message_of :
      (sender : SenderType) (content : Text) (m : Message) (s' : Store F)
      → Service.send_message id (some account) sender content w s ≡ (ok m, s')
      → (m.user_id ≡ some account)
        × (m.chat_session_id ≡ id)
        × (m.sender_type ≡ sender)
        × (m.content ≡ trim_space content)
  unfolding Service.send_message Rows.get_session_by_id Rows.create_message exec run_statement
  message_of sender content m s' h = ground arith

-- A session is closed only for one who manages it, as the first statement has read it.
pub close_session-IsManager :
    {F : Type 0} (w : World F) (s : Store F) (u : Option User) (id n : ℕ) (text : Text)
    (s' : Store F)
    → close_session u (some id) w s ≡ (ok (written n text), s')
    → (v : User) × (row : ChatSession) × (u ≡ some v)
      × (find (λ r. r.id == id) (first_tables w s).chat_sessions ≡ some row)
      × IsManagerOf v row
unfolding close_session
close_session-IsManager w s u id n text s' h =
    let (row, found, allowed, s1, rest) = after-authorized w s id u true _ h in
    let (v, known, manages) = managed u (Rows.with_names (first_tables w s).users row) allowed in
    (v, row, known, found, manages)

-- Where `RejectSession` writes a rejection, the first statement has read the session, the user is a
-- supervisor, or a manager who has it or for whom it is a general one, and the rejection is that
-- user's, of that session, for the trimmed reason of the body.
pub reject_session-IsManager :
    {F : Type 0} (w : World F) (s : Store F) (u : Option User) (id n : ℕ) (body : Option Text)
    (rejection : ChatSessionRejection) (s' : Store F)
    → reject_session u (some id) body w s ≡ (ok (written n rejection), s')
    → (v : User) × (row : ChatSession) × (reason : Text) × (u ≡ some v)
      × (body ≡ some reason)
      × (find (λ r. r.id == id) (first_tables w s).chat_sessions ≡ some row)
      × IsManagerOf v row
      × (rejection.employee_id ≡ v.id)
      × (rejection.chat_session_id ≡ id)
      × (rejection.reason ≡ trim_space reason)
unfolding reject_session
reject_session-IsManager w s u id n body rejection s' h =
    let (row, found, allowed, s1, h1) = after-authorized w s id u true _ h in
    let (v, known, manages) = managed u (Rows.with_names (first_tables w s).users row) allowed in
    let (reason, given, h2) = after-need w s1 body bad_body _ h1 in
    let (x, same, h3) = after-need w s1 u panicked _ h2 in
    let (r, s2, made, h4) =
      after-call w s1 (Service.reject_session id x.id reason) (http_cause 400) _ h3 in
    let is_r : r ≡ rejection = ground (arith, h4) in
    let (by, of, why) = rejection_of w s1 id x.id reason r s2 made in
    let is_x : v ≡ x = ground (arith, known, same) in
    (
      v,
      row,
      reason,
      known,
      given,
      found,
      manages,
      cc (is_r, is_x, by),
      cc (is_r, of),
      cc (is_r, why),
    )

-- Where `SendMessage` writes a message, the first statement has read the session, and the message is
-- the user's, for that session, with the trimmed content of the body: as the client's, if the user
-- is its client, or as a manager's, if the user is a supervisor, or a manager who has the session or
-- for whom it is a general one.
pub send_message-IsAuthor :
    {F : Type 0} (w : World F) (s : Store F) (u : Option User) (id n : ℕ) (body : Option Text)
    (m : Message) (s' : Store F)
    → send_message u (some id) body w s ≡ (ok (written n m), s')
    → (v : User) × (row : ChatSession) × (content : Text) × (u ≡ some v)
      × (body ≡ some content)
      × (find (λ r. r.id == id) (first_tables w s).chat_sessions ≡ some row)
      × IsAuthorOf v row m
      × (m.user_id ≡ some v.id)
      × (m.chat_session_id ≡ id)
      × (m.content ≡ trim_space content)
unfolding send_message
send_message-IsAuthor w s u id n body m s' h =
    let (row, found, allowed, s1, h1) = after-authorized w s id u false _ h in
    let (v, known, h2) = after-need w s1 u panicked _ h1 in
    let (may, h3) = after-test w s1 (not (may_answer v _)) forbidden _ h2 in
    let (content, given, h4) = after-need w s1 body bad_body _ h3 in
    let (r, s2, made, h5) =
      after-call w s1 (Service.send_message id (some v.id) (sender_of v.role) content)
        (http_cause 400) _ h4 in
    let is_r : r ≡ m = ground (arith, h5) in
    let (by, of, sender, what) = message_of w s1 id v.id (sender_of v.role) content r s2 made in
    let named = Rows.with_names (first_tables w s).users row in
    let read : can_read_session (some v) (some named) ≡ true =
      ap (λ x. can_read_session x (some named)) (sym known) ∙ allowed in
    (
      v,
      row,
      content,
      known,
      given,
      found,
      author v named m read may (cc (is_r, sender)),
      cc (is_r, by),
      cc (is_r, of),
      cc (is_r, what),
    )
