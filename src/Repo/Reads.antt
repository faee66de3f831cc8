-- ===== src/Repo/Reads.antt =====
-- What the reads of one row return, and the tables that they meet.
use dsk_agent.Base.{ℕ, ◌+◌, ◌==◌, ◌≡◌, sym, ap, ◌∙◌, some, find, arith, Option-cases, inl, inr}
use dsk_agent.Domain.Error.{ok}
use dsk_agent.Domain.Account.{User}
use dsk_agent.Domain.Offer.{Offer}
use dsk_agent.Domain.Deal.{Deal}
use dsk_agent.Db.{Action, ◌>>=◌, World, Store, Tables, exec, run_statement}
use dsk_agent.Db.Laws.{bind-ok}
use dsk_agent.Repo.Account.{get_user_by_id}
use dsk_agent.Repo.Deal.{get_deal_by_id, with_names}
use dsk_agent.Repo.Offer.{get_by_id, joined}

module _ {F : Type 0} (w : World F) (s : Store F) where
  -- The tables that a statement from `s` meets.
  abbrev pub first_tables : Tables F
  first_tables = (w.slot s.tick).others s.tables

  -- The state after a read.
  abbrev pub after_read : Store F
  after_read = record s { tables = first_tables; tick = s.tick + 1 }

  pub get_user_by_id-ok :
      (id : ℕ) (account : User) (s' : Store F)
      → get_user_by_id id w s ≡ (ok account, s')
      → (find (λ u. u.id == id) first_tables.users ≡ some account) × (s' ≡ after_read)
  unfolding get_user_by_id exec run_statement
  get_user_by_id-ok id account s' h = ground arith

  pub get_deal_by_id-ok :
      (id : ℕ) (deal : Deal F) (s' : Store F)
      → get_deal_by_id id w s ≡ (ok deal, s')
      → (raw : Deal F) × (find (λ d. d.id == id) first_tables.deals ≡ some raw)
        × (deal ≡ with_names first_tables raw)
        × (s' ≡ after_read)
  unfolding get_deal_by_id exec run_statement
  get_deal_by_id-ok id deal s' h = elim (Option-cases (find (λ d. d.id == id) first_tables.deals)) [
    | inl none_found ↦ absurd (ground (arith, none_found, h))
    | inr (raw, found) ↦ (raw, found, ground (arith, found, h), ground (arith, found, h))
  ]

  pub get_offer_by_id-ok :
      (id : ℕ) (o : Offer) (s' : Store F)
      → get_by_id id w s ≡ (ok o, s')
      → (raw : Offer) × (find (λ p. p.id == id) first_tables.offers ≡ some raw)
        × (o ≡ joined first_tables.ancillary_units raw)
        × (s' ≡ after_read)
  unfolding get_by_id exec run_statement
  get_offer_by_id-ok id o s' h = elim (Option-cases (find (λ p. p.id == id) first_tables.offers)) [
    | inl none_found ↦ absurd (ground (arith, none_found, h))
    | inr (raw, found) ↦ (raw, found, ground (arith, found, h), ground (arith, found, h))
  ]

  module _ {B : Type 0} {b : B} {s' : Store F} where
    pub after-user :
        (id : ℕ) (f : User → Action F B)
        → (get_user_by_id id >>= f) w s ≡ (ok b, s')
        → (account : User) × (find (λ u. u.id == id) first_tables.users ≡ some account)
          × (f account w after_read ≡ (ok b, s'))
    after-user id f h =
        let (a, s1, e, h1) = bind-ok (get_user_by_id id) f w s b s' h in
        let (found, at) = get_user_by_id-ok id a s1 e in (a, found, sym (ap (f a w) at) ∙ h1)

    pub after-deal :
        (id : ℕ) (f : Deal F → Action F B)
        → (get_deal_by_id id >>= f) w s ≡ (ok b, s')
        → (raw : Deal F) × (find (λ d. d.id == id) first_tables.deals ≡ some raw)
          × (f (with_names first_tables raw) w after_read ≡ (ok b, s'))
    after-deal id f h =
        let (d, s1, e, h1) = bind-ok (get_deal_by_id id) f w s b s' h in
        let (raw, found, named, at) = get_deal_by_id-ok id d s1 e in
        (raw, found, sym (ap (λ x. f x w after_read) named) ∙ sym (ap (f d w) at) ∙ h1)

    pub after-offer :
        (id : ℕ) (f : Offer → Action F B)
        → (get_by_id id >>= f) w s ≡ (ok b, s')
        → (raw : Offer) × (find (λ p. p.id == id) first_tables.offers ≡ some raw)
          × (f (joined first_tables.ancillary_units raw) w after_read ≡ (ok b, s'))
    after-offer id f h =
        let (o, s1, e, h1) = bind-ok (get_by_id id) f w s b s' h in
        let (raw, found, named, at) = get_offer_by_id-ok id o s1 e in
        (raw, found, sym (ap (λ x. f x w after_read) named) ∙ sym (ap (f o w) at) ∙ h1)
