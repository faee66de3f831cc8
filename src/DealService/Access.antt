-- ===== src/DealService/Access.antt =====
-- Who may make a deal and set its status (`CreateDeal` and `UpdateDealStatus` in
-- backend/internal/service/deal.go).
use dsk_agent.Base.{
  ℕ, ◌≡◌, ◌↔◌, ◌≢◌, not, ◌&&◌, ◌||◌, ◌⊎◌, refl, Option, none, some, arith, find, ◌==◌, Bool, false,
}
use dsk_agent.Base.Floats.{Floats}
use dsk_agent.Domain.Error.{ok, deal_forbidden}
use dsk_agent.Domain.Account.{User, user, manager, supervisor, is_manager, is_supervisor}
use dsk_agent.Domain.Deal.{
  Deal, DealStatus, contract, cancelled, UpdateDealStatusRequest, CreateDealRequest,
}
use dsk_agent.Db.{Action, ◌>>=◌, ◌>>◌, World, Store as State, lift, refuse_if}
use dsk_agent.Db.Laws.{after-lift, bind-ok, after-refuse}
use dsk_agent.Repo.Deal.{with_names, new_deal}
use dsk_agent.Repo.Deal as Store
use dsk_agent.Repo.Reads.{first_tables, after_read, after-deal}
use dsk_agent.DealService.{
  Settings, check_discount, update_deal_status, create_deal, apply_update, max_discount,
  create_within, sell,
}
use dsk_agent.DealService.Rules.{authorize_update, some_actor}

-- A supervisor, the manager of the deal, or its client to confirm or to cancel it.
abbrev pub IsUpdaterOf : {F : Type 0} → User → Deal F → DealStatus → Type 0
IsUpdaterOf actor deal status =
    (actor.role ≡ supervisor)
    ⊎ ((actor.role ≡ manager) × (deal.employee_id ≡ actor.id))
    ⊎ ((actor.role ≡ user)
        × (deal.user_id ≡ actor.id)
        × ((status ≡ contract) ⊎ (status ≡ cancelled)))

-- The status may be set exactly by a supervisor, by the deal's manager, and by its client, who may only
-- confirm or cancel.
pub authorize_update_lem :
    {F : Type 0} (actor : User) (deal : Deal F) (status : DealStatus)
    → (authorize_update actor deal status ≡ ok tt) ↔ IsUpdaterOf actor deal status
unfolding authorize_update
authorize_update_lem actor deal status = ground arith

-- A discount is within its bounds exactly when nothing else is wrong, and it is neither below zero nor above the
-- limit; one above the limit is refused for want of an approval.
pub check_discount_lem :
    {F : Type 0} (fl : Floats F) (bad : Bool) (discount limit : F)
    → ((check_discount fl bad discount limit ≡ ok tt)
        ↔ ((bad ≡ false) × (fl.lt discount fl.zero ≡ false) × (fl.lt limit discount ≡ false)))
unfolding check_discount
check_discount_lem fl bad discount limit = ground arith

some_actor_lem : (who : Option User) (actor : User) → some_actor who ≡ ok actor → who ≡ some actor
some_actor_lem who actor h = ground arith

module _ {F : Type 0} (fl : Floats F) (settings : Settings F) (w : World F) (s : State F) where
  -- Where `UpdateDealStatus` returns a deal the first statement has read the deal's row, and the actor is a
  -- supervisor, the manager of that deal, or its client with a status that confirms or cancels.
  pub update-authorized :
      (id : ℕ) (req : UpdateDealStatusRequest F) (who : Option User) (d : Deal F) (s' : State F)
      → update_deal_status fl settings id req who w s ≡ (ok d, s')
      → (actor : User) × (raw : Deal F) × (who ≡ some actor)
        × (find (λ d. d.id == id) (first_tables w s).deals ≡ some raw)
        × IsUpdaterOf actor raw req.status
  unfolding update_deal_status
  update-authorized id req who d s' h =
      let go : Deal F → User → Action F (Deal F) = λ existing actor.
        lift (authorize_update actor existing req.status)
        >> apply_update fl settings id req existing actor in
      let (raw, found, h1) =
        after-deal w s id (λ existing. lift (some_actor who) >>= go existing) h in
      let named = with_names (first_tables w s) raw in
      let (actor, e, h2) = after-lift w (after_read w s) (some_actor who) (go named) h1 in
      let (x, passed, h3) =
        after-lift w (after_read w s) (authorize_update actor named req.status)
          (λ x. apply_update fl settings id req named actor) h2 in
      (
        actor,
        raw,
        some_actor_lem who actor e,
        found,
        (authorize_update_lem actor named req.status).0 passed,
      )

  -- Where `CreateDeal` returns a deal the actor is a manager or a supervisor, the request names a client and an
  -- apartment, and its discount is neither below zero nor above the limit that was looked up for the actor.
  pub create-authorized :
      (req : CreateDealRequest F) (who : Option User) (d : Deal F) (s' : State F)
      → create_deal fl settings req who w s ≡ (ok d, s')
      → (actor : User) × (limit : F) × (s1 : State F) × (who ≡ some actor)
        × ((actor.role ≡ manager) ⊎ (actor.role ≡ supervisor))
        × (max_discount fl settings req.apartment_id actor.role w s ≡ (ok limit, s1))
        × ((req.user_id ≢ 0) × (req.apartment_id ≢ 0))
        × (fl.lt req.percent_discount fl.zero ≡ false)
        × (fl.lt limit req.percent_discount ≡ false)
  unfolding create_deal create_within
  create-authorized req none d s' h = absurd (ground (arith, h))
  create-authorized req (some actor) d s' h =
      let bad : Bool = (req.user_id == 0) || (req.apartment_id == 0) in
      let (staff, h1) =
        after-refuse w s (not (is_manager actor.role) && not (is_supervisor actor.role))
          deal_forbidden
          (λ x.
            max_discount fl settings req.apartment_id actor.role
            >>= create_within fl settings req actor)
          h in
      let (limit, s1, found, h2) =
        bind-ok (max_discount fl settings req.apartment_id actor.role)
          (create_within fl settings req actor) w s d s' h1 in
      let rest : Unit {0} → Action F (Deal F) = λ x.
        Store.can_create_deal_for_user (some actor) req.user_id req.chat_session_id >>= λ allowed.
        refuse_if (not allowed) deal_forbidden
        >> (Store.get_apartment_sale_data req.apartment_id >>= sell fl settings req actor) in
      let (x, passed, h3) =
        after-lift w s1 (check_discount fl bad req.percent_discount limit) rest h2 in
      let (named, low, high) = (check_discount_lem fl bad req.percent_discount limit).0 passed in
      (actor, limit, s1, refl, ground (arith, staff), found, ground (arith, named), low, high)
