-- ===== src/OfferService/Decision.antt =====
-- The decision on an offer and the reuse of a request's id (`Decide` and `Create` in
-- backend/internal/service/offer.go and backend/internal/repository/offer.go).
use dsk_agent.Base.{
  ℕ, ◌+◌, ◌==◌, ==_iff, ==_refl, ◌≡◌, refl, ap, ◌∙◌, Bool, true, false, [], ◌∷◌, not, ◌&&◌, ◌||◌,
  Option, none, some, find, update_where, arith, Option-cases, Bool-cases, inl, inr, if◌then◌else◌,
}
use dsk_agent.Base.Text.{Text, trim_space, is_empty}
use dsk_agent.Base.Rows.{update_where_clears, find_both, find_test, find_updated}
use dsk_agent.Domain.Error.{ok, err, offer_forbidden, invalid_offer_state, offer_not_found}
use dsk_agent.Domain.Account.{User, is_supervisor}
use dsk_agent.Domain.Offer.{Offer, approved, rejected, is_pending_approval}
use dsk_agent.Db.{◌>>=◌, Columns, World, Store, Tables, exec, or_throw}
use dsk_agent.Db.Laws.{IsQuiet, exec-quiet, bind-run}
use dsk_agent.Repo.Offer.{decide_row, decided, joined, joined?, get_by_id}
use dsk_agent.Repo.Offer as Rows
use dsk_agent.OfferService.Calls.{decide}

-- What a decision leaves behind: the actor and the time on its side, nothing on the other, and the reason
-- of a rejection.
abbrev pub approved_by_actor : ℕ → ℕ → Offer → Offer
approved_by_actor actor_id now o = record o {
  status = approved;
  approved_by = some actor_id;
  approved_at = some now;
  rejected_by = none;
  rejected_at = none;
  rejection_reason = none;
  updated_at = now;
}

abbrev pub rejected_by_actor : ℕ → ℕ → Text → Offer → Offer
rejected_by_actor actor_id now reason o = record o {
  status = rejected;
  approved_by = none;
  approved_at = none;
  rejected_by = some actor_id;
  rejected_at = some now;
  rejection_reason = some reason;
  updated_at = now;
}

decided_row :
    (actor_id now : ℕ) (reason : Text) (o : Offer) (approve : Bool)
    → (not approve && is_empty reason) ≡ false
    → decided actor_id approve reason now o ≡ (
        if approve
        then approved_by_actor actor_id now o
        else rejected_by_actor actor_id now reason o)
unfolding decided
decided_row actor_id now reason o true h = refl
decided_row actor_id now [] o false h = absurd (ground (arith, h))
decided_row actor_id now (c ∷ reason) o false h = refl

module _ {F : Type 0} where
  -- Once a decision on an offer has met a row, no second decision on it does, whoever makes it.
  pub decided_once :
      (id a b : ℕ) (x y : Bool) (p q : Text) (m n : ℕ) (t : Tables F)
      → (decide_row id b y q n (decide_row id a x p m t).1).0 ≡ none
  unfolding decide_row decided
  decided_once id a b x y p q m n t =
      let test =
        λ (o : Offer). (o.id == id) && (is_pending_approval o.status && o.approval_required) in
      elim (Option-cases (find test t.offers)) [
        | inl none_found ↦ rw (none_found, decide_row) (rw (none_found, decide_row) refl)
        | inr (o, found) ↦
            let cleared = update_where_clears test (decided a x p m) (λ o. ground arith) t.offers in
            rw (found, decide_row) (rw (cleared, decide_row) refl)
      ]

  module _ (w : World F) (quiet : IsQuiet w) where
    pub get_by_id-quiet :
        (id : ℕ) (s : Store F) (raw : Offer)
        → find (λ o. o.id == id) s.tables.offers ≡ some raw
        → get_by_id id w s
          ≡ (ok (joined s.tables.ancillary_units raw), record s { tick = s.tick + 1 })
    unfolding get_by_id
    get_by_id-quiet id s raw h =
        let read : Columns F → ℕ → Tables F → Option Offer × Tables F =
          λ c now t. (joined? t.ancillary_units (find (λ o. o.id == id) t.offers), t) in
        bind-run (exec read) (λ found. or_throw found offer_not_found) w s
          (exec-quiet w quiet read s)
        ∙ rw h refl

    -- In a quiet world, at an offer that the table holds and that can be decided.
    module _ (s : Store F) (offer_id : ℕ) (raw : Offer)
        (held : find (λ o. o.id == offer_id) s.tables.offers ≡ some raw)
        (can : (is_pending_approval raw.status && raw.approval_required) ≡ true) (supervisor_id : ℕ)
        (approve : Bool) (reason : Text) where
      abbrev row_now : Offer
      row_now = decided supervisor_id approve reason (w.slot s.tick).now raw

      same_id : raw.id ≡ offer_id
      same_id =
          (==_iff raw.id offer_id).0
            (find_test (λ (o : Offer). o.id == offer_id) s.tables.offers held)

      decide_row-hit :
          (now : ℕ)
          → decide_row offer_id supervisor_id approve reason now s.tables ≡ (
              let test = λ (o : Offer).
                (o.id == offer_id) && (is_pending_approval o.status && o.approval_required) in
              let offers =
                update_where test (decided supervisor_id approve reason now) s.tables.offers in
              (some offer_id, record s.tables { offers = offers }))
      unfolding decide_row
      decide_row-hit now =
          let hit =
            find_both (λ (o : Offer). o.id == offer_id)
              (λ o. is_pending_approval o.status && o.approval_required) s.tables.offers held can in
          rw (hit, decide_row) (rw same_id refl)

      store_decide-quiet :
          (s' : Store F) × (Rows.decide offer_id supervisor_id approve reason w s
            ≡ (ok (joined s.tables.ancillary_units row_now), s'))
          × (find (λ o. o.id == offer_id) s'.tables.offers ≡ some row_now)
      unfolding Rows.decide decided
      store_decide-quiet =
          let now = (w.slot s.tick).now in
          let step : Columns F → ℕ → Tables F → Option ℕ × Tables F =
            λ c n t. decide_row offer_id supervisor_id approve reason n t in
          let test : Offer → Bool = λ o. o.id == offer_id in
          let more : Offer → Bool =
            λ o. (o.id == offer_id) && (is_pending_approval o.status && o.approval_required) in
          let hit : more raw ≡ true = rw (same_id, ==_refl offer_id) can in
          let offers =
            update_where more (decided supervisor_id approve reason now) s.tables.offers in
          let after : Store F = record s {
            tables = record s.tables { offers = offers };
            tick = s.tick + 1;
          } in
          let found =
            find_updated test more (decided supervisor_id approve reason now) (λ o d. refl)
              s.tables.offers held hit in
          let ran : exec step w s ≡ (ok (some offer_id), after) =
            exec-quiet w quiet step s
            ∙ ap (λ r. (ok r.0, record s { tables = r.1; tick = s.tick + 1 }))
                (decide_row-hit now) in
          (
            record after { tick = s.tick + 1 + 1 },
            bind-run (exec step) (λ updated. or_throw updated offer_not_found >>= get_by_id) w s ran
                ∙ get_by_id-quiet offer_id after row_now found,
            found,
          )

    -- In a quiet world, for an offer that the table holds, `Decide` refuses an actor who is no supervisor, then
    -- a rejection with a blank reason, then an offer that is not pending or requires no approval, and
    -- otherwise returns the decided offer, with the actor and the trimmed reason on the side of the decision.
    pub decide-quiet :
        (s : Store F) (offer_id : ℕ) (raw : Offer) (actor : User) (approve : Bool) (reason : Text)
        → find (λ o. o.id == offer_id) s.tables.offers ≡ some raw
        → (decide offer_id (some actor) approve reason w s).0 ≡ (
            if not (is_supervisor actor.role)
            then err offer_forbidden
            else if not approve && is_empty (trim_space reason)
            then err invalid_offer_state
            else if not (is_pending_approval raw.status) || not raw.approval_required
            then err invalid_offer_state
            else (let now = (w.slot (s.tick + 1)).now in
                let row : Offer =
                  if approve
                  then approved_by_actor actor.id now raw
                  else rejected_by_actor actor.id now (trim_space reason) raw in
                ok (joined s.tables.ancillary_units row)))
    unfolding decide
    decide-quiet s offer_id raw actor approve reason held =
        let read = get_by_id-quiet offer_id s raw held in
        elim (Bool-cases (is_pending_approval raw.status && raw.approval_required)) [
          | inl can ↦
              let (s', ran, found) =
                store_decide-quiet (record s { tick = s.tick + 1 }) offer_id raw held can actor.id
                  approve (trim_space reason) in
              elim (Bool-cases (not approve && is_empty (trim_space reason))) [
                | inl blank ↦ ground (arith, read, ran, can, blank)
                | inr given ↦
                    let row =
                      decided_row actor.id (w.slot (s.tick + 1)).now (trim_space reason) raw approve
                        given in
                    ground (arith, read, ran, can, given, row)
              ]
          | inr e ↦ ground (arith, read, e)
        ]
