-- ===== src/OfferService/Table.antt =====
-- The table `offers` under every write that the service makes of it (the statements of
-- backend/internal/repository/offer.go with the rows of backend/internal/service/offer.go).
use native.Mathlib.Nat.{le_trans}
use dsk_agent.Base.{
  ap, ℕ, ◌+◌, ◌≤◌, ◌≡◌, ◌≢◌, refl, Bool, true, false, ◌&&◌, none, List, [], ◌∷◌, map, arith, ◌==◌,
  All, All-append, find, update_where, ◌⊎◌, inl, inr, Option-cases,
}
use dsk_agent.Base.Text.{Text, text_eq, text_eq_refl}
use dsk_agent.Base.Rows.{
  All-update_where, All-map, NoRepeat, NoRepeat-snoc, keys-append, keys-update_where, keys-All,
  find-none,
}
use dsk_agent.Domain.Offer.{
  Offer, OfferCalculation, draft, pending_approval, approved, rejected, is_draft,
  is_pending_approval,
}
use dsk_agent.Db.{Tables}
use dsk_agent.Repo.Offer.{max_version, new_row, insert_offer, mark_row, decided, decide_row}
use dsk_agent.OfferService.Rules.{requested_offer}

-- Who has decided an offer fits its status: nobody before a decision, a supervisor on the side of the
-- decision after it, and nobody where no approval is required.
pub record IsConsistent (o : Offer) : Type 0 where
  pub undecided :
      (o.status ≡ draft) ⊎ (o.status ≡ pending_approval)
      → (o.approval_required ≡ true) × (o.approved_by ≡ none) × (o.rejected_by ≡ none)
  pub refused :
      o.status ≡ rejected
      → (o.approval_required ≡ true) × (o.approved_by ≡ none) × (o.rejected_by ≢ none)
  pub accepted :
      o.status ≡ approved
      → o.approval_required ≡ true
      → (o.approved_by ≢ none) × (o.rejected_by ≡ none)
  pub unasked :
      o.approval_required ≡ false
      → (o.status ≡ approved) × (o.approved_by ≡ none) × (o.rejected_by ≡ none)

module _ {F : Type 0} where
  -- The writes, with any arguments and at any time.
  pub data Write (t : Tables F) : Tables F → Type 0 where
    inserted :
        (percent_text : Text → Text) (now : ℕ) (request_id : Text) (deal_id actor_id : ℕ)
        (generated_text : Text) (c : OfferCalculation)
        → Write t
            (insert_offer percent_text now request_id
              (requested_offer deal_id actor_id generated_text c)
              t).1
    marked : (id now : ℕ) → Write t (mark_row id now t).1
    decided_on :
        (id supervisor_id : ℕ) (approve : Bool) (reason : Text) (now : ℕ)
        → Write t (decide_row id supervisor_id approve reason now t).1

  pub data Writes (t : Tables F) : Tables F → Type 0 where
    here : Writes t t
    next : {u v : Tables F} → Writes t u → Write u v → Writes t v

-- The key of the table's second unique index.
abbrev pub deal_version : Offer → ℕ × ℕ
deal_version o = (o.deal_id, o.version)

module _ {F : Type 0} where
  pub record IsValid (t : Tables F) : Type 0 where
    pub consistent : All IsConsistent t.offers
    pub requests : NoRepeat (map (λ o. o.request_id) t.offers)
    pub versions : NoRepeat (map deal_version t.offers)

marked-IsConsistent :
    (now : ℕ) (o : Offer)
    → is_draft o.status ≡ true
    → IsConsistent o
    → IsConsistent (record o { status = pending_approval; updated_at = now })
marked-IsConsistent now o d h = ground arith

decided-IsConsistent :
    (supervisor_id : ℕ) (approve : Bool) (reason : Text) (now : ℕ) (o : Offer)
    → o.approval_required ≡ true
    → IsConsistent (decided supervisor_id approve reason now o)
unfolding decided
decided-IsConsistent supervisor_id approve reason now o r = ground arith

new_row-IsConsistent :
    {F : Type 0} (pt : Text → Text) (now : ℕ) (t : Tables F) (request_id : Text)
    (deal_id actor_id : ℕ) (generated_text : Text) (c : OfferCalculation)
    → IsConsistent (new_row pt now t request_id (requested_offer deal_id actor_id generated_text c))
unfolding new_row requested_offer
new_row-IsConsistent pt now t request_id deal_id actor_id generated_text c = ground arith

max_version_mono :
    (deal_id : ℕ) (o : Offer) (l : List Offer) → max_version deal_id l ≤ max_version deal_id (o ∷ l)
unfolding max_version
max_version_mono deal_id o l = ground arith

max_version-head :
    (deal_id : ℕ) (o : Offer) (l : List Offer)
    → o.deal_id ≡ deal_id
    → o.version ≤ max_version deal_id (o ∷ l)
unfolding max_version
max_version-head deal_id o l e = ground arith

version-le-max :
    (deal_id : ℕ) (l : List Offer)
    → All (λ o. o.deal_id ≡ deal_id → o.version ≤ max_version deal_id l) l
version-le-max deal_id [] = tt
version-le-max deal_id (o ∷ l) = (
  max_version-head deal_id o l,
  All-map _ _ (λ x h e. le_trans (h e) (max_version_mono deal_id o l)) l (version-le-max deal_id l),
)

-- A version above the greatest one is new.
new_version :
    (deal_id : ℕ) (l : List Offer)
    → All (λ k. k ≢ (deal_id, max_version deal_id l + 1)) (map deal_version l)
new_version deal_id l =
    keys-All deal_version (λ k. k ≢ (deal_id, max_version deal_id l + 1)) l
      (All-map _ _ (λ x h e. absurd (omega (arith, h (ap (λ k. k.0) e), ap (λ (k : ℕ × ℕ). k.1) e)))
        l (version-le-max deal_id l))

-- A request id that no row has is new.
new_request :
    (request_id : Text) (l : List Offer)
    → find (λ p. text_eq p.request_id request_id) l ≡ none
    → All (λ k. k ≢ request_id) (map (λ p. p.request_id) l)
new_request request_id l h =
    keys-All (λ p. p.request_id) (λ k. k ≢ request_id) l
      (All-map _ _ (λ x d e. cc (text_eq_refl request_id, ap (λ k. text_eq k request_id) e)) l
        (find-none (λ p. text_eq p.request_id request_id) l h))

module _ {F : Type 0} (t : Tables F) (v : IsValid t) where
  insert-IsValid :
      (pt : Text → Text) (now : ℕ) (request_id : Text) (deal_id actor_id : ℕ)
      (generated_text : Text) (c : OfferCalculation)
      → IsValid
          (insert_offer pt now request_id (requested_offer deal_id actor_id generated_text c) t).1
  unfolding insert_offer new_row requested_offer
  insert-IsValid pt now request_id deal_id actor_id generated_text c =
      elim (Option-cases (find (λ p. text_eq p.request_id request_id) t.offers)) [
        | inl fresh ↦
            let o = requested_offer deal_id actor_id generated_text c in
            let row = new_row pt now t request_id o in
            let ids = λ (l : List Offer). map (λ p. p.request_id) l in
            rw (fresh, insert_offer)
              (record {
                consistent = All-append IsConsistent t.offers (row ∷ []) v.consistent (
                  new_row-IsConsistent pt now t request_id deal_id actor_id generated_text c,
                  tt,
                );
                requests = rw (keys-append (λ p. p.request_id) t.offers (row ∷ [])) (
                    NoRepeat-snoc (ids t.offers) row.request_id v.requests
                      (new_request request_id t.offers fresh));
                versions = rw (keys-append deal_version t.offers (row ∷ [])) (
                    NoRepeat-snoc (map deal_version t.offers) (deal_version row) v.versions
                      (new_version deal_id t.offers));
              })
        | inr (o, found) ↦ rw (found, insert_offer) v
      ]

  update-IsValid :
      (test : Offer → Bool) (f : Offer → Offer)
      → ((o : Offer) → test o ≡ true → IsConsistent o → IsConsistent (f o))
      → ((o : Offer) → (f o).request_id ≡ o.request_id)
      → ((o : Offer) → deal_version (f o) ≡ deal_version o)
      → IsValid (record t { offers = update_where test f t.offers })
  update-IsValid test f keep same_id same_version = record {
    consistent = All-update_where IsConsistent test f keep t.offers v.consistent;
    requests = rw (keys-update_where (λ o. o.request_id) test f same_id t.offers) v.requests;
    versions = rw (keys-update_where deal_version test f same_version t.offers) v.versions;
  }

  mark-IsValid : (id now : ℕ) → IsValid (mark_row id now t).1
  unfolding mark_row
  mark-IsValid id now =
      let test = λ (o : Offer). (o.id == id) && (is_draft o.status && o.approval_required) in
      elim (Option-cases (find test t.offers)) [
        | inl none_found ↦ rw (none_found, mark_row) v
        | inr (o, found) ↦
            rw (found, mark_row)
              (update-IsValid test (λ p. record p { status = pending_approval; updated_at = now })
                (λ p e h. marked-IsConsistent now p (ground arith) h) (λ p. refl) (λ p. refl))
      ]

  decide-IsValid :
      (id supervisor_id : ℕ) (approve : Bool) (reason : Text) (now : ℕ)
      → IsValid (decide_row id supervisor_id approve reason now t).1
  unfolding decide_row decided
  decide-IsValid id supervisor_id approve reason now =
      let test =
        λ (o : Offer). (o.id == id) && (is_pending_approval o.status && o.approval_required) in
      elim (Option-cases (find test t.offers)) [
        | inl none_found ↦ rw (none_found, decide_row) v
        | inr (o, found) ↦
            rw (found, decide_row)
              (update-IsValid test (decided supervisor_id approve reason now)
                (λ p e h. decided-IsConsistent supervisor_id approve reason now p (ground arith))
                (λ p. refl) (λ p. refl))
      ]

Write-IsValid : {F : Type 0} (t u : Tables F) → Write t u → IsValid t → IsValid u
Write-IsValid t _ (inserted pt now request_id deal_id actor_id text c) v =
    insert-IsValid t v pt now request_id deal_id actor_id text c
Write-IsValid t _ (marked id now) v = mark-IsValid t v id now
Write-IsValid t _ (decided_on id supervisor_id approve reason now) v =
    decide-IsValid t v id supervisor_id approve reason now

-- After any sequence of the service's writes to a valid table every offer's decision fits its status, no
-- request id occurs twice, and no deal has two offers of one version.
pub Writes-IsValid : {F : Type 0} {t u : Tables F} → IsValid t → Writes t u → IsValid u
Writes-IsValid v here = v
Writes-IsValid v (next {u = m} {v = n} ws w) = Write-IsValid m n w (Writes-IsValid v ws)
