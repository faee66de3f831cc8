-- ===== src/Broker/Dialogs.antt =====
-- The dialogs that the backend's own dispatcher hands out.
use dsk_agent.Base.{ℕ, ◌≤◌, Option, none, some, length, List, [], arith}
use dsk_agent.Base.Text.{Text}
use dsk_agent.Base.Sort.{sort}
use dsk_agent.Base.Floats.{Floats}
use dsk_agent.Db.{World, Store, pure, ◌>>=◌, Action}
use dsk_agent.Db.Laws.{Returns, Returns-after, Returns-pure}
use dsk_agent.Domain.Deal.{Deal}
use dsk_agent.DialogService.{get_deal_messages, DealDialogMessage, dialog, last_of, sent_before}
use dsk_agent.DialogService.Window.{last_of-suffix}
use dsk_agent.Repo.Chat.{get_messages_by_session_id}
use dsk_agent.Repo.Deal.{get_deal_by_id}
use dsk_agent.OfferService.Rules.{DiscountPolicy}
use dsk_agent.Broker.Codec.{Json}
use dsk_agent.Broker.Backend.{backend}
use dsk_agent.Broker.Limits.{dispatch-bounded, messages_of}
use dsk_agent.Broker.Dispatch.{dispatch}

module _ {F : Type 0} where
  abbrev window : ℕ → Option ℕ → Action F (List DealDialogMessage)
  window limit session = elim session [
    | none ↦ pure []
    | some id ↦ (do
      messages ← get_messages_by_session_id id
      pure (last_of limit (dialog (sort sent_before messages))))
  ]

  window-bounded :
      (limit : ℕ) (session : Option ℕ) (w : World F)
      → Returns w (window limit session) (λ l. length l ≤ limit)
  window-bounded limit none w = Returns-pure w [] (λ l. length l ≤ limit) (omega arith)
  window-bounded limit (some id) w =
      Returns-after w (get_messages_by_session_id id)
        (λ m. pure (last_of limit (dialog (sort sent_before m)))) (λ l. length l ≤ limit)
        λ m.
          Returns-pure w _ (λ l. length l ≤ limit)
            (last_of-suffix limit (dialog (sort sent_before m))).0

  get_deal_messages-bounded :
      (deal_id limit : ℕ) (w : World F)
      → Returns w (get_deal_messages {F = F} deal_id limit) (λ l. length l ≤ limit)
  unfolding get_deal_messages
  get_deal_messages-bounded deal_id limit w =
      Returns-after w (get_deal_by_id deal_id)
        (λ (deal : Deal F). window limit deal.chat_session_id) (λ l. length l ≤ limit)
        (λ deal. window-bounded limit deal.chat_session_id w)

  -- Whatever an agent asks for, and whatever the tables hold, the backend answers with at most a hundred messages of
  -- a dialog.
  pub backend-bounded :
      (floats : Floats F) (policy : DiscountPolicy) (json : Json) (format_date : ℕ → Text)
      (routing_key body : Text) (w : World F) (s : Store F)
      → length (
          messages_of
            (dispatch (backend floats policy json format_date) routing_key body w s).0.content)
        ≤ 100
  backend-bounded floats policy json format_date =
      dispatch-bounded (backend floats policy json format_date) get_deal_messages-bounded
