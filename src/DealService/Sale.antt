-- ===== src/DealService/Sale.antt =====
-- The transactions of backend/internal/repository/deal.go, in which the errors of the updates of the
-- apartment and of the chat session are dropped.
use dsk_agent.Base.{
  ℕ, false, sym, ap, ◌∙◌, ◌+◌, ◌≡◌, Option, none, some, List, [], ◌∷◌, ◌++◌, arith,
}
use dsk_agent.Domain.Error.{ok}
use dsk_agent.Domain.Estate.{Apartment, ApartmentStatus, free, booked, sold}
use dsk_agent.Domain.Deal.{Deal, DealStatus, pending, contract, completed, cancelled}
use dsk_agent.Domain.Chat.{ChatSession, ChatSessionStatus}
use dsk_agent.Db.{World, Store, exec_tx, ◌>>◌, ◌>>=◌, pure, Action}
use dsk_agent.Db.Laws.{transaction-ok, stopped_at, begun, bind-ok, exec_tx-ok}
use dsk_agent.Repo.Deal.{
  create_deal, new_deal, insert_deal, set_apartment, set_session, update_apartment, update_session,
}
use dsk_agent.Repo.Reads.{first_tables}

-- The chat sessions after a deal has set the status of its own, if it has one.
abbrev pub session_after :
    Option ℕ → Option ChatSessionStatus → ℕ → List ChatSession → List ChatSession
session_after none status now l = l
session_after (some id) none now l = l
session_after (some id) (some status) now l = set_session id status now l

abbrev pub apartment_after : ℕ → Option ApartmentStatus → List Apartment → List Apartment
apartment_after id none l = l
apartment_after id (some status) l = set_apartment id status l

module _ {F : Type 0} (w : World F) where
  -- The updates that follow a new row, as long as no statement has failed.
  booking :
      (id : ℕ) (session : Option ℕ) (d row : Deal F) (s s' : Store F)
      → (update_apartment id (some booked)
            >> (update_session session (some ChatSessionStatus.pending_approval) >> pure d))
          w s
        ≡ (ok row, s')
      → s'.aborted ≡ false
      → (d ≡ row)
        × (s'.tables.deals ≡ s.tables.deals)
        × (s'.tables.apartments ≡ set_apartment id booked s.tables.apartments)
        × (s'.tables.chat_sessions
            ≡ session_after session
                (some ChatSessionStatus.pending_approval)
                (w.slot (s.tick + 1)).now
                s.tables.chat_sessions)
  unfolding update_apartment update_session exec_tx
  booking id none d row s s' h live = ground (arith, h)
  booking id (some n) d row s s' h live = ground (arith, h)

module _ {F : Type 0} (w : World F) (s : Store F) where
  -- A new deal that `CreateDeal` returns is committed together with the booking of its apartment and the
  -- new status of its chat session, on the tables that the transaction began with.
  pub create_deal_together :
      (d row : Deal F) (s' : Store F)
      → create_deal d w s ≡ (ok row, s')
      → let t = first_tables w s in
        (row ≡ new_deal w.columns (w.slot s.tick).now t d)
        × (s'.tables.deals ≡ t.deals ++ row ∷ [])
        × (s'.tables.apartments ≡ set_apartment d.apartment_id booked t.apartments)
        × (s'.tables.chat_sessions
            ≡ session_after d.chat_session_id
                (some ChatSessionStatus.pending_approval)
                (w.slot s.tick).now
                t.chat_sessions)
  unfolding create_deal
  create_deal_together d row s' h =
      let tail : Deal F → Action F (Deal F) = λ made.
        update_apartment d.apartment_id (some booked)
        >> (update_session d.chat_session_id (some ChatSessionStatus.pending_approval)
            >> pure made) in
      let (s2, ran, live, kept) = transaction-ok w (exec_tx (insert_deal d) >>= tail) s row s' h in
      let v = stopped_at w s in
      let (made, s3, e1, h1) = bind-ok (exec_tx (insert_deal d)) tail v (begun w s) row s2 ran in
      let (value, at) = exec_tx-ok v (begun w s) (insert_deal d) e1 in
      let (same, deals, apartments, sessions) =
        booking v d.apartment_id d.chat_session_id made row s3 s2 h1 live in
      (
        sym same ∙ value,
        ap (λ x. x.deals) kept
            ∙ deals
            ∙ ap (λ x. x.tables.deals) at
            ∙ ap (λ x. (first_tables w s).deals ++ x ∷ []) (sym value ∙ same),
        ap (λ x. x.apartments) kept
            ∙ apartments
            ∙ ap (λ x. set_apartment d.apartment_id booked x.tables.apartments) at,
        ap (λ x. x.chat_sessions) kept
            ∙ sessions
            ∙ ap
                (λ x.
                  session_after d.chat_session_id (some ChatSessionStatus.pending_approval)
                    (w.slot s.tick).now x.tables.chat_sessions)
                at,
      )

-- What becomes of the apartment and the chat session of a deal that gets a status: they are sold and closed
-- by a completed deal, booked and under contract by one under contract, booked and waiting by one that is
-- pending, and free and in progress again by a cancelled one.
abbrev pub IsFollowedBy :
    DealStatus
    → ℕ
    → Option ℕ
    → ℕ
    → List Apartment × List ChatSession
    → List Apartment × List ChatSession
    → Type 0
IsFollowedBy completed a c now t t' =
    (t'.0 ≡ set_apartment a sold t.0)
    × (t'.1 ≡ session_after c (some ChatSessionStatus.close) now t.1)
IsFollowedBy contract a c now t t' =
    (t'.0 ≡ set_apartment a booked t.0)
    × (t'.1 ≡ session_after c (some ChatSessionStatus.contract) now t.1)
IsFollowedBy pending a c now t t' =
    (t'.0 ≡ set_apartment a booked t.0)
    × (t'.1 ≡ session_after c (some ChatSessionStatus.pending_approval) now t.1)
IsFollowedBy cancelled a c now t t' =
    (t'.0 ≡ set_apartment a free t.0)
    × (t'.1 ≡ session_after c (some ChatSessionStatus.in_progress) now t.1)
IsFollowedBy (DealStatus.other text) a c now t t' = (t'.0 ≡ t.0) × (t'.1 ≡ t.1)
