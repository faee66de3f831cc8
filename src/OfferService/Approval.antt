-- ===== src/OfferService/Approval.antt =====
-- The request for an approval (`RequestApproval` in backend/internal/service/offer.go).
use dsk_agent.Base.{
  ℕ, ◌+◌, ◌==◌, ==_iff, ==_refl, ◌≡◌, refl, ap, ◌∙◌, Bool, true, not, ◌&&◌, ◌||◌, Option, some,
  find, update_where, arith, Bool-cases, inl, inr, if◌then◌else◌,
}
use dsk_agent.Base.Rows.{find_both, find_test, find_updated}
use dsk_agent.Domain.Error.{
  ok, err, offer_forbidden, invalid_offer_state, offer_not_found, user_not_found,
}
use dsk_agent.Domain.Account.{User, is_supervisor, is_manager}
use dsk_agent.Domain.Offer.{Offer, pending_approval, is_draft, is_pending_approval}
use dsk_agent.Domain.Deal.{Deal}
use dsk_agent.Db.{◌>>=◌, Columns, World, Store, Tables, exec, or_throw}
use dsk_agent.Db.Laws.{IsQuiet, exec-quiet, bind-run}
use dsk_agent.Repo.Account.{get_user_by_id}
use dsk_agent.Repo.Offer.{mark_row, mark_pending_approval, joined, get_by_id}
use dsk_agent.OfferService.Rules.{authorize_offer_actor}
use dsk_agent.OfferService.Calls.{request_approval, pending_or_marked}
use dsk_agent.OfferService.Decision.{get_by_id-quiet}
use dsk_agent.OfferService.Listing.{get_deal_by_id-quiet}

-- The row of an offer that waits for a decision from now on.
abbrev pub marked_at : ℕ → Offer → Offer
marked_at now o = record o { status = pending_approval; updated_at = now }

module _ {F : Type 0} (w : World F) (quiet : IsQuiet w) where
  get_user_by_id-quiet :
      (id : ℕ) (s : Store F) (account : User)
      → find (λ u. u.id == id) s.tables.users ≡ some account
      → get_user_by_id id w s ≡ (ok account, record s { tick = s.tick + 1 })
  unfolding get_user_by_id
  get_user_by_id-quiet id s account h =
      let read : Columns F → ℕ → Tables F → Option User × Tables F =
        λ c now t. (find (λ u. u.id == id) t.users, t) in
      bind-run (exec read) (λ found. or_throw found user_not_found) w s (exec-quiet w quiet read s)
      ∙ rw h refl

  mark-quiet :
      (s : Store F) (offer_id : ℕ) (raw : Offer)
      → find (λ o. o.id == offer_id) s.tables.offers ≡ some raw
      → (is_draft raw.status && raw.approval_required) ≡ true
      → (s' : Store F) × (mark_pending_approval offer_id w s
          ≡ (ok (joined s.tables.ancillary_units (marked_at (w.slot s.tick).now raw)), s'))
  unfolding mark_pending_approval mark_row
  mark-quiet s offer_id raw held can =
      let now = (w.slot s.tick).now in
      let step : Columns F → ℕ → Tables F → Option ℕ × Tables F = λ c n t. mark_row offer_id n t in
      let test : Offer → Bool = λ o. o.id == offer_id in
      let draft : Offer → Bool = λ o. is_draft o.status && o.approval_required in
      let more : Offer → Bool =
        λ o. (o.id == offer_id) && (is_draft o.status && o.approval_required) in
      let same = (==_iff raw.id offer_id).0 (find_test test s.tables.offers held) in
      let hit : more raw ≡ true = rw (same, ==_refl offer_id) can in
      let offers = update_where more (marked_at now) s.tables.offers in
      let after : Store F = record s {
        tables = record s.tables { offers = offers };
        tick = s.tick + 1;
      } in
      let row : mark_row offer_id now s.tables
          ≡ (some offer_id, record s.tables { offers = offers }) =
        rw (find_both test draft s.tables.offers held can, mark_row) (rw same refl) in
      let found = find_updated test more (marked_at now) (λ o d. refl) s.tables.offers held hit in
      let ran : exec step w s ≡ (ok (some offer_id), after) =
        exec-quiet w quiet step s
        ∙ ap (λ r. (ok r.0, record s { tables = r.1; tick = s.tick + 1 })) row in
      (
        record after { tick = s.tick + 1 + 1 },
        bind-run (exec step) (λ updated. or_throw updated offer_not_found >>= get_by_id) w s ran
            ∙ get_by_id-quiet w quiet offer_id after (marked_at now raw) found,
      )

  -- In a quiet world that has the actor, the offer and its deal, `RequestApproval` refuses an actor who is neither a
  -- supervisor nor the deal's manager, then an offer that requires no approval; it returns a pending offer as it
  -- is and a draft as pending from now on, and refuses any other.
  pub request_approval-quiet :
      (s : Store F) (offer_id actor_id : ℕ) (account : User) (raw : Offer) (deal : Deal F)
      → find (λ u. u.id == actor_id) s.tables.users ≡ some account
      → find (λ o. o.id == offer_id) s.tables.offers ≡ some raw
      → find (λ d. d.id == raw.deal_id) s.tables.deals ≡ some deal
      → (request_approval offer_id actor_id w s).0 ≡ (
          if not (
            is_supervisor account.role
            || (is_manager account.role && (deal.employee_id == account.id)))
          then err offer_forbidden
          else if not raw.approval_required
          then err invalid_offer_state
          else if is_pending_approval raw.status
          then ok (joined s.tables.ancillary_units raw)
          else if is_draft raw.status
          then ok (joined s.tables.ancillary_units (marked_at (w.slot (s.tick + 3)).now raw))
          else err invalid_offer_state)
  unfolding request_approval authorize_offer_actor pending_or_marked
  request_approval-quiet s offer_id actor_id account raw deal actor held sold =
      let s1 : Store F = record s { tick = s.tick + 1 } in
      let s2 : Store F = record s { tick = s.tick + 1 + 1 } in
      let s3 : Store F = record s { tick = s.tick + 1 + 1 + 1 } in
      let one = get_user_by_id-quiet actor_id s account actor in
      let two = get_by_id-quiet w quiet offer_id s1 raw held in
      let three = get_deal_by_id-quiet w quiet raw.deal_id s2 deal sold in
      elim (Bool-cases (is_draft raw.status && raw.approval_required)) [
        | inl can ↦
            let (s', ran) = mark-quiet s3 offer_id raw held can in
            ground (arith, one, two, three, ran, can)
        | inr e ↦ ground (arith, one, two, three, e)
      ]
