-- ===== src/ConstructionService/Outcome.antt =====
-- A notification that fails does not undo a change of the construction.
use dsk_agent.Base.{◌≡◌, arith, inl, inr}
use dsk_agent.Domain.Estate.{ConstructionProgress}
use dsk_agent.Db.{World, Store}
use dsk_agent.Db.Laws.{answer-cases}
use dsk_agent.Repo.Home
use dsk_agent.ConstructionService.{create_progress, update_progress}

module _ {F : Type 0} (p : ConstructionProgress) (w : World F) (s : Store F) where
  create-outcome : (create_progress p w s).0 ≡ (Home.create_progress p w s).0
  unfolding create_progress
  create-outcome = elim (answer-cases (Home.create_progress p w s)) [
    | inl (a, s1, h) ↦ ground (arith, h)
    | inr (e, s1, h) ↦ ground (arith, h)
  ]

  update-outcome : (update_progress p w s).0 ≡ (Home.update_progress p w s).0
  unfolding update_progress
  update-outcome = elim (answer-cases (Home.update_progress p w s)) [
    | inl (a, s1, h) ↦ ground (arith, h)
    | inr (e, s1, h) ↦ ground (arith, h)
  ]

  -- A new or a changed stage of construction is answered for by the write of its row alone: whatever becomes of
  -- the notifications and mails that follow, the caller gets the stage or the error of that write.
  pub progress_outcome :
      ((create_progress p w s).0 ≡ (Home.create_progress p w s).0)
      × ((update_progress p w s).0 ≡ (Home.update_progress p w s).0)
  progress_outcome = (create-outcome, update-outcome)
