-- ===== src/OfferService/Lifecycle.antt =====
-- The life of an offer, and how the table of offers lives it.
use mathlib.Core.Path.{subst}
use dsk_agent.Base.{
  if◌then◌else◌, ap, ℕ, ◌≡◌, refl, sym, ◌∙◌, Bool, true, false, ◌&&◌, List, [], ◌∷◌, ◌++◌, arith,
  ◌==◌, All, find, update_where, inl, inr, Option-cases, Bool-cases,
}
use dsk_agent.Base.Int.{ℤ}
use dsk_agent.Base.Text.{Text, text_eq}
use dsk_agent.Domain.Offer.{
  Offer, OfferCalculation, OfferStatus, draft, pending_approval, approved, rejected, is_draft,
  is_pending_approval,
}
use dsk_agent.Db.{Tables}
use dsk_agent.Repo.Offer.{new_row, insert_offer, mark_row, decided, decide_row}
use dsk_agent.OfferService.Rules.{requested_offer}
use dsk_agent.OfferService.Table.{Write, inserted, marked, decided_on, Writes, here, next}

-- The abstract offer: a draft is submitted, and what is pending is approved or rejected.
pub data Step : OfferStatus → OfferStatus → Type 0 where
  submission : Step draft pending_approval
  approval : Step pending_approval approved
  refusal : Step pending_approval rejected

pub data Lifecycle (a : OfferStatus) : OfferStatus → Type 0 where
  start : Lifecycle a a
  then_ : {b c : OfferStatus} → Lifecycle a b → Step b c → Lifecycle a c

-- What an offer is about and what it costs.
abbrev pub terms : Offer → ℕ × ℕ × ℕ × Text × ℤ × Text × ℤ × ℤ × ℤ × Text × Bool
terms o = (
  o.id, o.deal_id, o.created_by, o.request_id, o.base_price, o.discount_percent, o.final_price,
  o.parking_price, o.storage_price, o.generated_text, o.approval_required,
)

-- The offer `p` is `o` at a later time.
pub record Becomes (o p : Offer) : Type 0 where
  pub same_terms : terms p ≡ terms o
  pub lived : Lifecycle o.status p.status

-- An offer that requires approval begins as a draft, any other is approved from the beginning.
abbrev pub first_status : Bool → OfferStatus
first_status true = draft
first_status false = approved

abbrev pub WasCreated : Offer → Type 0
WasCreated o = Lifecycle (first_status o.approval_required) o.status

-- The rows of a later table: those of the earlier one, each at a later time, and then new ones.
abbrev pub Evolves : List Offer → List Offer → Type 0
Evolves [] m = All WasCreated m
Evolves (o ∷ l) [] = ⊥
Evolves (o ∷ l) (p ∷ m) = Becomes o p × Evolves l m

Lifecycle-trans : {a b c : OfferStatus} → Lifecycle a b → Lifecycle b c → Lifecycle a c
Lifecycle-trans p start = p
Lifecycle-trans p (then_ q st) = then_ (Lifecycle-trans p q) st

Becomes-refl : (o : Offer) → Becomes o o
Becomes-refl o = record { same_terms = refl; lived = start }

Becomes-trans : {o p q : Offer} → Becomes o p → Becomes p q → Becomes o q
Becomes-trans a b = record {
  same_terms = b.same_terms ∙ a.same_terms;
  lived = Lifecycle-trans a.lived b.lived;
}

created-later : (o p : Offer) → WasCreated o → Becomes o p → WasCreated p
created-later o p c b =
    subst (λ r. Lifecycle (first_status r) p.status) (sym (ap (λ t. t.10) b.same_terms))
      (Lifecycle-trans c b.lived)

Evolves-refl : (l : List Offer) → Evolves l l
Evolves-refl [] = tt
Evolves-refl (o ∷ l) = (Becomes-refl o, Evolves-refl l)

Evolves-trans : (l m n : List Offer) → Evolves l m → Evolves m n → Evolves l n
Evolves-trans [] [] n p q = q
Evolves-trans [] (o ∷ m) [] p q = absurd q
Evolves-trans [] (o ∷ m) (x ∷ n) p q = (created-later o x p.0 q.0, Evolves-trans [] m n p.1 q.1)
Evolves-trans (o ∷ l) [] n p q = absurd p
Evolves-trans (o ∷ l) (x ∷ m) [] p q = absurd q
Evolves-trans (o ∷ l) (x ∷ m) (y ∷ n) p q = (Becomes-trans p.0 q.0, Evolves-trans l m n p.1 q.1)

Evolves-append : (l : List Offer) (o : Offer) → WasCreated o → Evolves l (l ++ o ∷ [])
Evolves-append [] o c = (c, tt)
Evolves-append (x ∷ l) o c = (Becomes-refl x, Evolves-append l o c)

Evolves-update_where :
    (test : Offer → Bool) (f : Offer → Offer)
    → ((o : Offer) → test o ≡ true → Becomes o (f o))
    → (l : List Offer) → Evolves l (update_where test f l)
Evolves-update_where test f keep [] = tt
Evolves-update_where test f keep (o ∷ l) = (
  elim (Bool-cases (test o)) [ inl e ↦ rw e (keep o e) | inr e ↦ rw e (Becomes-refl o) ],
  Evolves-update_where test f keep l,
)

submitted : (s : OfferStatus) → is_draft s ≡ true → Lifecycle s pending_approval
submitted draft h = then_ start submission
submitted pending_approval h = absurd (cc h)
submitted approved h = absurd (cc h)
submitted rejected h = absurd (cc h)

decision : Bool → OfferStatus
decision true = approved
decision false = rejected

settled :
    (s : OfferStatus) (approve : Bool)
    → is_pending_approval s ≡ true
    → Lifecycle s (decision approve)
unfolding decision
settled pending_approval true h = then_ start approval
settled pending_approval false h = then_ start refusal
settled draft a h = absurd (cc h)
settled approved a h = absurd (cc h)
settled rejected a h = absurd (cc h)

decided-Becomes :
    (supervisor_id : ℕ) (approve : Bool) (reason : Text) (now : ℕ) (o : Offer)
    → is_pending_approval o.status ≡ true
    → Becomes o (decided supervisor_id approve reason now o)
unfolding decided decision
decided-Becomes supervisor_id true reason now o h = record {
  same_terms = refl;
  lived = settled o.status true h;
}
decided-Becomes supervisor_id false reason now o h = record {
  same_terms = refl;
  lived = settled o.status false h;
}

created :
    (required : Bool) → Lifecycle (first_status required) (if required then draft else approved)
created true = start
created false = start

module _ {F : Type 0} (t : Tables F) where
  insert-Evolves :
      (pt : Text → Text) (now : ℕ) (request_id : Text) (deal_id actor_id : ℕ)
      (generated_text : Text) (c : OfferCalculation)
      → Evolves t.offers
          (insert_offer pt now request_id
            (requested_offer deal_id actor_id generated_text c)
            t).1.offers
  unfolding insert_offer new_row requested_offer
  insert-Evolves pt now request_id deal_id actor_id generated_text c =
      let o = requested_offer deal_id actor_id generated_text c in
      elim (Option-cases (find (λ p. text_eq p.request_id request_id) t.offers)) [
        | inl fresh ↦
            rw (fresh, insert_offer)
              (Evolves-append t.offers (new_row pt now t request_id o)
                (created c.requires_approval))
        | inr (x, found) ↦ rw (found, insert_offer) (Evolves-refl t.offers)
      ]

  mark-Evolves : (id now : ℕ) → Evolves t.offers (mark_row id now t).1.offers
  unfolding mark_row
  mark-Evolves id now =
      let test = λ (o : Offer). (o.id == id) && (is_draft o.status && o.approval_required) in
      elim (Option-cases (find test t.offers)) [
        | inl none_found ↦ rw (none_found, mark_row) (Evolves-refl t.offers)
        | inr (o, found) ↦
            rw (found, mark_row)
              (Evolves-update_where test
                (λ p. record p { status = pending_approval; updated_at = now })
                (λ p e. record {
                  same_terms = refl;
                  lived = submitted p.status (ground (arith, e));
                })
                t.offers)
      ]

  decide-Evolves :
      (id supervisor_id : ℕ) (approve : Bool) (reason : Text) (now : ℕ)
      → Evolves t.offers (decide_row id supervisor_id approve reason now t).1.offers
  unfolding decide_row
  decide-Evolves id supervisor_id approve reason now =
      let test =
        λ (o : Offer). (o.id == id) && (is_pending_approval o.status && o.approval_required) in
      elim (Option-cases (find test t.offers)) [
        | inl none_found ↦ rw (none_found, decide_row) (Evolves-refl t.offers)
        | inr (o, found) ↦
            rw (found, decide_row)
              (Evolves-update_where test (decided supervisor_id approve reason now)
                (λ p e. decided-Becomes supervisor_id approve reason now p (ground (arith, e)))
                t.offers)
      ]

Write-Evolves : {F : Type 0} (t u : Tables F) → Write t u → Evolves t.offers u.offers
Write-Evolves t _ (inserted pt now request_id deal_id actor_id text c) =
    insert-Evolves t pt now request_id deal_id actor_id text c
Write-Evolves t _ (marked id now) = mark-Evolves t id now
Write-Evolves t _ (decided_on id supervisor_id approve reason now) =
    decide-Evolves t id supervisor_id approve reason now

-- Whatever the service writes, in any order: every offer of the table stays in its place with the same terms
-- and prices and lives the abstract life from the status it had (a draft is submitted, what is
-- pending is approved or rejected, and nothing else happens), and every new offer has lived it since its
-- creation as a draft or, where no approval is required, as approved.
pub Writes-Evolves : {F : Type 0} {t u : Tables F} → Writes t u → Evolves t.offers u.offers
Writes-Evolves {t = t} here = Evolves-refl t.offers
Writes-Evolves {t = t} (next {u = m} {v = n} ws w) =
    Evolves-trans t.offers m.offers n.offers (Writes-Evolves ws) (Write-Evolves m n w)
