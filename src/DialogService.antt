-- ===== src/DialogService.antt =====
-- backend/internal/service/dialog_analysis.go: the last messages of a deal's chat session, for the
-- analysis of the dialog.
pub mod Window
use dsk_agent.Base.{
  ℕ, ◌-◌, Bool, Option, none, some, List, [], ◌∷◌, ◌==◌, ltb, length, drop, if◌then◌else◌,
}
use dsk_agent.Base.Text.{Text}
use dsk_agent.Base.Sort.{sort}
use dsk_agent.Domain.Chat.{Message, SenderType, client, manager}
use dsk_agent.Db.{Action, ◌>>=◌, pure}
use dsk_agent.Repo.Chat.{get_messages_by_session_id}
use dsk_agent.Repo.Deal.{get_deal_by_id}

pub data Direction : Type 0 where
  client_to_manager manager_to_client : Direction

pub record DealDialogMessage : Type 0 where
  pub id : ℕ
  pub direction : Direction
  pub body : Text

-- The order of the sort: by time, and by id at the same time.
abbrev pub sent_before : Message → Message → Bool
sent_before a b = if a.sended_at == b.sended_at then ltb a.id b.id else ltb a.sended_at b.sended_at

unfoldable pub direction_of : SenderType → Option Direction
direction_of client = some client_to_manager
direction_of manager = some manager_to_client
direction_of _ = none

abbrev pub with_direction :
    Option Direction → Message → List DealDialogMessage → List DealDialogMessage
with_direction none m l = l
with_direction (some d) m l = record { id = m.id; direction = d; body = m.content } ∷ l

-- The loop: messages of other senders are left out.
unfoldable pub dialog : List Message → List DealDialogMessage
unfolding direction_of
dialog [] = []
dialog (m ∷ l) = with_direction (direction_of m.sender_type) m (dialog l)

-- The end of the list, of at most `limit` messages.
unfoldable pub last_of : ℕ → List DealDialogMessage → List DealDialogMessage
last_of limit l = if ltb limit (length l) then drop (length l - limit) l else l

-- `GetDealMessages`.
unfoldable pub get_deal_messages : {F : Type 0} → ℕ → ℕ → Action F (List DealDialogMessage)
unfolding dialog last_of
get_deal_messages deal_id limit = do
  deal ← get_deal_by_id deal_id
  elim deal.chat_session_id [
    | none ↦ pure []
    | some id ↦ (do
      messages ← get_messages_by_session_id id
      pure (last_of limit (dialog (sort sent_before messages))))
  ]
