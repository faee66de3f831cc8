-- ===== src/OfferService/Access.antt =====
-- Who may make and read offers (`authorizeOfferActor`, `canReadOffer` and the methods that call them in
-- backend/internal/service/offer.go).
use mathlib.Core.Path.{subst}
use dsk_agent.Base.{
  not, ◌≤◌, ℕ, ◌==◌, ◌≡◌, ◌↔◌, ◌⊎◌, refl, sym, ap, ◌∙◌, Option, none, some, find, arith, true,
}
use dsk_agent.Domain.Error.{offer_forbidden, ok}
use dsk_agent.Domain.Account.{User, user, manager, supervisor}
use dsk_agent.Domain.Offer.{Offer, OfferCalculation, OfferSelection}
use dsk_agent.Domain.Deal.{Deal}
use dsk_agent.Db.{◌>>=◌, ◌>>◌, lift, pure, Action, World, Store, refuse_if}
use dsk_agent.Db.Laws.{bind-ok, after-lift, pure-ok, after-refuse}
use dsk_agent.Repo.Deal.{get_deal_by_id, with_names}
use dsk_agent.Base.Text.{Text}
use dsk_agent.Base.Int.{ℤ, pos, negsuc}
use dsk_agent.Discount.{percent_string_to_basis_points}
use dsk_agent.Discount.Meaning.{InRange, percent_range}
use dsk_agent.Repo.Offer.{joined}
use dsk_agent.Repo.Reads.{first_tables, after_read, after-user, after-deal, after-offer}
use dsk_agent.OfferService.Rules.{DiscountPolicy, authorize_offer_actor, can_read_offer}
use dsk_agent.OfferService.Calls.{authorize_deal, calculate, calculate_for, get_for_actor}

-- A supervisor, or the manager of the deal.
abbrev pub IsStaffOf : {F : Type 0} → User → Deal F → Type 0
IsStaffOf account deal =
    (account.role ≡ supervisor) ⊎ ((account.role ≡ manager) × (deal.employee_id ≡ account.id))

-- One of those, or the client of the deal.
abbrev pub IsReaderOf : {F : Type 0} → User → Deal F → Type 0
IsReaderOf account deal =
    IsStaffOf account deal ⊎ ((account.role ≡ user) × (deal.user_id ≡ account.id))

-- The actor may act on the deal exactly when the actor is a supervisor or the deal's manager.
pub authorize_offer_actor_lem :
    {F : Type 0} (account : User) (deal : Deal F)
    → (authorize_offer_actor (some account) (some deal) ≡ ok tt) ↔ IsStaffOf account deal
unfolding authorize_offer_actor
authorize_offer_actor_lem account deal = ground arith

pub can_read_offer_lem :
    {F : Type 0} (account : User) (deal : Deal F)
    → (can_read_offer (some account) (some deal) ≡ true) ↔ IsReaderOf account deal
unfolding can_read_offer
can_read_offer_lem account deal = ground arith

accepted :
    (text : Text) (points : ℤ)
    → percent_string_to_basis_points text ≡ ok points
    → (n : ℕ) × (points ≡ pos n) × (n ≤ 10000)
accepted text (pos n) h = (n, refl, subst InRange h (percent_range text))
accepted text (negsuc n) h = absurd (subst InRange h (percent_range text))

module _ {F : Type 0} (w : World F) (s : Store F) where
  -- Where the check of a deal passes, the first statement has read the actor's row and the second the
  -- deal's, the actor of those rows is a supervisor or the deal's manager, and nothing is written.
  pub authorize_deal_lem :
      (deal_id actor_id : ℕ) (deal : Deal F) (account : User) (s' : Store F)
      → authorize_deal deal_id actor_id w s ≡ (ok (deal, account), s')
      → (raw : Deal F) × (find (λ u. u.id == actor_id) (first_tables w s).users ≡ some account)
        × (find (λ d. d.id == deal_id) (first_tables w (after_read w s)).deals ≡ some raw)
        × (deal ≡ with_names (first_tables w (after_read w s)) raw)
        × IsStaffOf account raw
        × (s'.tables ≡ first_tables w (after_read w s))
  unfolding authorize_deal
  authorize_deal_lem deal_id actor_id deal account s' h =
      let check : User → Deal F → Action F (Deal F × User) =
        λ a d. lift (authorize_offer_actor (some a) (some d)) >> pure (d, a) in
      let (a, found, h1) = after-user w s actor_id (λ a. get_deal_by_id deal_id >>= check a) h in
      let (raw, found_deal, h2) = after-deal w (after_read w s) deal_id (check a) h1 in
      let named = with_names (first_tables w (after_read w s)) raw in
      let (x, passed, h3) =
        after-lift w (after_read w (after_read w s)) (authorize_offer_actor (some a) (some named))
          (λ x. pure (named, a)) h2 in
      let (same, end) = pure-ok w (after_read w (after_read w s)) (named, a) h3 in
      let allowed : IsStaffOf a named = (authorize_offer_actor_lem a named).0 passed in
      (
        raw,
        found ∙ ap (λ p. some p.1) same,
        found_deal,
        sym (ap (λ p. p.0) same),
        subst (λ p. IsStaffOf p.1 raw) same allowed,
        sym (ap (λ t. t.tables) end),
      )

  -- Where `Calculate` returns a calculation the first statement has read the actor's row and the second the
  -- deal's, the actor of those rows is a supervisor or the deal's manager, and the text of the discount is
  -- read as at most 10000 basis points.
  pub calculate-authorized :
      (policy : DiscountPolicy) (deal_id actor_id : ℕ) (text : Text) (selection : OfferSelection)
      (c : OfferCalculation) (s' : Store F)
      → calculate policy deal_id actor_id text selection w s ≡ (ok c, s')
      → (account : User) × (raw : Deal F) × (n : ℕ) × (find
            (λ u. u.id == actor_id)
            (first_tables w s).users
          ≡ some account)
        × (find (λ d. d.id == deal_id) (first_tables w (after_read w s)).deals ≡ some raw)
        × IsStaffOf account raw
        × (percent_string_to_basis_points text ≡ ok (pos n))
        × (n ≤ 10000)
  unfolding calculate
  calculate-authorized policy deal_id actor_id text selection c s' h =
      let (points, read, h1) =
        after-lift w s (percent_string_to_basis_points text)
          (λ n. authorize_deal deal_id actor_id >>= calculate_for policy n selection) h in
      let ((deal, account), s1, passed, h2) =
        bind-ok (authorize_deal deal_id actor_id) (calculate_for policy points selection) w s c s'
          h1 in
      let (raw, found, found_deal, named, allowed, end) =
        authorize_deal_lem deal_id actor_id deal account s1 passed in
      let (n, e, range) = accepted text points read in
      (account, raw, n, found, found_deal, allowed, read ∙ ap ok e, range)

  -- An offer is handed out by `GetForActor` only as the first statement has read it, and only to an actor who
  -- is a supervisor, the manager or the client of its deal as the second statement has read it.
  pub get_for_actor_lem :
      (offer_id : ℕ) (actor : Option User) (o : Offer) (s' : Store F)
      → get_for_actor offer_id actor w s ≡ (ok o, s')
      → (account : User) × (raw : Offer) × (deal : Deal F) × (actor ≡ some account)
        × (find (λ p. p.id == offer_id) (first_tables w s).offers ≡ some raw)
        × (o ≡ joined (first_tables w s).ancillary_units raw)
        × (find (λ d. d.id == raw.deal_id) (first_tables w (after_read w s)).deals ≡ some deal)
        × IsReaderOf account deal
  unfolding get_for_actor
  get_for_actor_lem offer_id none o s' h =
      let check : Offer → Deal F → Action F Offer =
        λ p d. refuse_if (not (can_read_offer none (some d))) offer_forbidden >> pure p in
      let (raw, found, h1) =
        after-offer w s offer_id (λ p. get_deal_by_id p.deal_id >>= check p) h in
      let (deal, found_deal, h2) =
        after-deal w (after_read w s) raw.deal_id
          (check (joined (first_tables w s).ancillary_units raw)) h1 in
      absurd (ground (arith, h2))
  get_for_actor_lem offer_id (some account) o s' h =
      let check : Offer → Deal F → Action F Offer =
        λ p d. refuse_if (not (can_read_offer (some account) (some d))) offer_forbidden >> pure p in
      let (raw, found, h1) =
        after-offer w s offer_id (λ p. get_deal_by_id p.deal_id >>= check p) h in
      let (deal, found_deal, h2) =
        after-deal w (after_read w s) raw.deal_id
          (check (joined (first_tables w s).ancillary_units raw)) h1 in
      let named = with_names (first_tables w (after_read w s)) deal in
      let (x, h3) =
        after-refuse w (after_read w (after_read w s))
          (not (can_read_offer (some account) (some named))) offer_forbidden
          (λ x. pure (joined (first_tables w s).ancillary_units raw)) h2 in
      let (same, end) =
        pure-ok w (after_read w (after_read w s)) (joined (first_tables w s).ancillary_units raw)
          h3 in
      (
        account,
        raw,
        deal,
        refl,
        found,
        sym same,
        found_deal,
        (can_read_offer_lem account deal).0 (ground (arith, x)),
      )
