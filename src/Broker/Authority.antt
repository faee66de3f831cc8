-- ===== src/Broker/Authority.antt =====
-- Who may have an agent make an offer.
use dsk_agent.Base.{
  ℕ, ◌≡◌, refl, ap, ◌∙◌, sym, ◌==◌, ◌||◌, ◌≤◌, ◌≢◌, [], Bool, true, false, Option, none, some, find,
  arith, inl, inr, if◌then◌else◌,
}
use dsk_agent.Base.Int.{pos}
use dsk_agent.Base.Text.{Text, codes, text_eq, text_eq→eq, is_empty, trim_space}
use dsk_agent.Base.Floats.{Floats}
use dsk_agent.Domain.Error.{Err, ok}
use dsk_agent.Domain.Account.{User}
use dsk_agent.Domain.Deal.{Deal}
use dsk_agent.Domain.Offer.{Offer, OfferCalculation, OfferSelection}
use dsk_agent.Domain.Rpc.{BackendRpcRequest}
use dsk_agent.Discount.{percent_string_to_basis_points}
use dsk_agent.Db.{World, Store, Action}
use dsk_agent.Db.Laws.{answer-cases, bind-ok}
use dsk_agent.Repo.Reads.{first_tables, after_read}
use dsk_agent.OfferService.Rules.{DiscountPolicy}
use dsk_agent.OfferService.Calls
use dsk_agent.OfferService.Access.{IsStaffOf, calculate-authorized}
use dsk_agent.Broker.Keys
use dsk_agent.Broker.Keys.{key_text, action_text, read_key}
use dsk_agent.Broker.Codec.{Json, decode_strict, OfferCreatePayload}
use dsk_agent.Broker.Failures.{offer_failure, validation_error}
use dsk_agent.Broker.Replies.{Reply}
use dsk_agent.Broker.Interfaces.{Response, Handler, respond, call, after}
use dsk_agent.Broker.Backend.{backend}
use dsk_agent.Broker.Setup.{read_key_written}
use dsk_agent.Broker.Sales.{offer_create_case, offer_creation, created_response, is_incomplete}
use dsk_agent.Broker.Dispatch.{dispatch, for_body, for_request, for_key, run_case}

module _ {F : Type 0} (w : World F) (s : Store F) {x : Reply F} where
  -- A case that answers with data has passed its guard, which does not hold.
  past_guard :
      (c : Bool) (id message : Text) (h : Handler F)
      → ((if c then respond (validation_error id message) else h) w s).0.content ≡ some x
      → (c ≡ false) × ((h w s).0.content ≡ some x)
  past_guard true id message h e = absurd (cc e)
  past_guard false id message h e = (refl, e)

  -- An action that is answered with data is the one of the routing key.
  past_match :
      (c : Bool) (id message : Text) (h : Handler F)
      → ((if c then h else respond (validation_error id message)) w s).0.content ≡ some x
      → (c ≡ true) × ((h w s).0.content ≡ some x)
  past_match true id message h e = (refl, e)
  past_match false id message h e = absurd (cc e)

  -- A case that answers with data has made its call with success.
  past_call :
      {A : Type 0} (m : Action F A) (failure : Err → Response F) (rest : A → Handler F)
      → ((e : Err) → (failure e).content ≡ none)
      → (call m failure rest w s).0.content ≡ some x
      → (a : A) × (s1 : Store F) × (m w s ≡ (ok a, s1)) × ((rest a w s1).0.content ≡ some x)
  past_call m failure rest silent h = elim (answer-cases (m w s)) [
    | inl (a, s1, e) ↦ (a, s1, e, sym (ap (λ r. (after failure rest w r).0.content) e) ∙ h)
    | inr (e, s1, r) ↦
        let gone = sym (ap (λ r. (after failure rest w r).0.content) r) ∙ h in
        absurd (cc (silent e, gone))
  ]

-- A deal, a creator, a discount and a text that is not blank.
abbrev pub IsComplete : OfferCreatePayload → Type 0
IsComplete p =
    (p.deal_id ≢ 0)
    × (p.created_by ≢ 0)
    × (p.discount_percent ≢ [])
    × (trim_space p.generated_text ≢ [])

offer_failure-silent :
    {F : Type 0} (id : Text) (e : Err) → (offer_failure {D = Reply F} id e).content ≡ none
unfolding offer_failure
offer_failure-silent id e = ground arith

module _ {F : Type 0} (w : World F) (s : Store F) where
  create-calculated :
      (policy : DiscountPolicy) (request_id : Text) (deal_id actor_id : ℕ) (percent text : Text)
      (selection : OfferSelection) (o : Offer) (s' : Store F)
      → Calls.create policy request_id deal_id actor_id percent text selection w s ≡ (ok o, s')
      → (c : OfferCalculation) × (s1 : Store F) × (Calls.calculate policy deal_id actor_id percent
            selection w s
          ≡ (ok c, s1))
  unfolding dsk_agent.OfferService.Calls.create
  create-calculated policy request_id deal_id actor_id percent text selection o s' h =
      let (c, s1, e, rest) =
        bind-ok (Calls.calculate policy deal_id actor_id percent selection)
          (Calls.create_for request_id deal_id actor_id text selection) w s o s' h in
      (c, s1, e)

  -- What has been read before the offer was made: a supervisor or the deal's own manager, and a percent up to 100.
  abbrev pub IsAllowed : OfferCreatePayload → Type 0
  IsAllowed p =
      (account : User) × (raw : Deal F) × (n : ℕ) × (find (λ u. u.id == p.created_by)
          (first_tables w s).users
        ≡ some account)
      × (find (λ d. d.id == p.deal_id) (first_tables w (after_read w s)).deals ≡ some raw)
      × IsStaffOf account raw
      × (percent_string_to_basis_points p.discount_percent ≡ ok (pos n))
      × (n ≤ 10000)

  module _ (floats : Floats F) (policy : DiscountPolicy) (json : Json) (format_date : ℕ → Text)
      {x : Reply F} where
    case-IsAllowed :
        (id : Text) (o : Option OfferCreatePayload)
        → (offer_create_case (backend floats policy json format_date) id o w s).0.content ≡ some x
        → (p : OfferCreatePayload) × (o ≡ some p) × IsComplete p × IsAllowed p
    unfolding offer_create_case
    case-IsAllowed id none h = absurd (cc h)
    case-IsAllowed id (some p) h =
        let d = backend floats policy json format_date in
        let selection : OfferSelection = record {
          parking_unit_id = p.parking_unit_id;
          storage_unit_id = p.storage_unit_id;
        } in
        let run = call (offer_creation d id p) (offer_failure id) (created_response d id) in
        let (complete, passed) =
          past_guard w s (is_incomplete d id p) id
            (codes "deal_id, created_by, discount_percent and generated_text are required") run h in
        let (o, s1, made, rest) =
          past_call w s (offer_creation d id p) (offer_failure id) (created_response d id)
            (offer_failure-silent id) passed in
        let (c, s2, done) =
          create-calculated policy id p.deal_id p.created_by p.discount_percent p.generated_text
            selection o s1 made in
        (
          p,
          refl,
          ground (arith, complete),
          calculate-authorized w s policy p.deal_id p.created_by p.discount_percent selection c s2
              done,
        )

    key-IsAllowed :
        (q : BackendRpcRequest)
        → (for_key
            (backend floats policy json format_date)
            (some Keys.offer_create)
            q
            w
            s).0.content
          ≡ some x
        → (p : OfferCreatePayload) × (q.action ≡ action_text Keys.offer_create)
          × (decode_strict json.offer_create q.payload ≡ some p)
          × IsComplete p
          × IsAllowed p
    unfolding for_key run_case
    key-IsAllowed q h =
        let d = backend floats policy json format_date in
        let (same, answered) =
          past_match w s (text_eq q.action (action_text Keys.offer_create)) q.request_id
            (codes "action does not match routing key")
            (run_case d Keys.offer_create q.request_id q.payload) h in
        let (p, decoded, complete, allowed) =
          case-IsAllowed q.request_id (decode_strict json.offer_create q.payload) answered in
        (p, text_eq→eq _ _ same, decoded, complete, allowed)

    request-IsAllowed :
        (q : BackendRpcRequest)
        → (for_request
            (backend floats policy json format_date)
            (key_text Keys.offer_create)
            q
            w
            s).0.content
          ≡ some x
        → (p : OfferCreatePayload) × (q.action ≡ action_text Keys.offer_create)
          × (decode_strict json.offer_create q.payload ≡ some p)
          × IsComplete p
          × IsAllowed p
    unfolding for_request
    request-IsAllowed q h =
        let d = backend floats policy json format_date in
        let answered =
          past_guard w s (is_empty (trim_space q.request_id) || is_empty (trim_space q.action))
            q.request_id (codes "request_id and action are required")
            (for_key d (read_key (key_text Keys.offer_create)) q) h in
        key-IsAllowed q (
          sym (ap (λ k. (for_key d k q w s).0.content) (read_key_written Keys.offer_create))
          ∙ answered.1)

    body-IsAllowed :
        (body : Text) (o : Option BackendRpcRequest)
        → (for_body
            (backend floats policy json format_date)
            (key_text Keys.offer_create)
            body
            o
            w
            s).0.content
          ≡ some x
        → (q : BackendRpcRequest) × (p : OfferCreatePayload) × (o ≡ some q)
          × (q.action ≡ action_text Keys.offer_create)
          × (decode_strict json.offer_create q.payload ≡ some p)
          × IsComplete p
          × IsAllowed p
    unfolding for_body
    body-IsAllowed body none h = absurd (cc h)
    body-IsAllowed body (some q) h =
        let (p, same, decoded, complete, allowed) = request-IsAllowed q h in
        (q, p, refl, same, decoded, complete, allowed)

    -- Where the backend answers a delivery for `backend.offer.create` with data, the body is a request for that
    -- operation with a payload that has a deal, a creator, a discount and a text that is not blank, and of the creator and the deal that the payload names the
    -- first statement has read the creator's row and the second the deal's: the creator is a supervisor or
    -- the deal's manager, and the discount is read as at most 100 percent.
    pub offer_create-authorized :
        (body : Text)
        → (dispatch
            (backend floats policy json format_date)
            (key_text Keys.offer_create)
            body
            w
            s).0.content
          ≡ some x
        → (q : BackendRpcRequest) × (p : OfferCreatePayload) × (decode_strict json.request body
            ≡ some q)
          × (q.action ≡ action_text Keys.offer_create)
          × (decode_strict json.offer_create q.payload ≡ some p)
          × IsComplete p
          × IsAllowed p
    unfolding dispatch
    offer_create-authorized body h = body-IsAllowed body (decode_strict json.request body) h
