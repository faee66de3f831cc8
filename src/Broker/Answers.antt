-- ===== src/Broker/Answers.antt =====
-- Rules for what a case of the dispatcher answers, whatever the world and the store.
use mathlib.Core.Path.{subst}
use dsk_agent.Base.{
  ◌≡◌, refl, sym, Bool, true, false, not, Option, none, some, is_some, inl, inr, if◌then◌else◌,
  arith,
}
use dsk_agent.Base.Text.{Text, codes, text_eq}
use dsk_agent.Domain.Error.{Err}
use dsk_agent.Domain.Rpc.{BackendRpcError, backend_rpc_success, backend_rpc_failure}
use dsk_agent.Db.{World, Store, Action}
use dsk_agent.Db.Laws.{answer-cases, Returns}
use dsk_agent.Broker.Failures.{validation_error, backend_read_failure, offer_failure}
use dsk_agent.Broker.Replies.{Reply}
use dsk_agent.Broker.Interfaces.{Response, Handler, respond, call, after}

module _ {F : Type 0} (P : Response F → Type 0) where
  -- Every response of the case has the property.
  abbrev pub Answers : Handler F → Type 0
  Answers h = (w : World F) (s : Store F) → P (h w s).0

  pub Answers-if :
      (c : Bool) (h k : Handler F) → Answers h → Answers k → Answers (if c then h else k)
  Answers-if true h k p q = p
  Answers-if false h k p q = q

  -- A call that returns only values with the property `Q`.
  pub Answers-call :
      {A : Type 0} (Q : A → Type 0) (m : Action F A) (failure : Err → Response F)
      (rest : A → Handler F)
      → ((w : World F) → Returns w m Q)
      → ((e : Err) → P (failure e))
      → ((a : A) → Q a → Answers (rest a))
      → Answers (call m failure rest)
  Answers-call Q m failure rest returns p q w s = elim (answer-cases (m w s)) [
    | inl (a, s1, h) ↦
        subst (λ r. P (after failure rest w r).0) (sym h) (q a (returns w s a s1 h) w s1)
    | inr (e, s1, h) ↦ subst (λ r. P (after failure rest w r).0) (sym h) (p e)
  ]

-- The code of a request that the broker refuses.
abbrev pub is_refusal : Option BackendRpcError → Bool
is_refusal none = false
is_refusal (some e) = text_eq e.code (codes "VALIDATION_ERROR")

-- The response to the request `id`: it has data and says so, or it has an error.
pub record IsResponseTo {F : Type 0} (id : Text) (r : Response F) : Type 0 where
  pub same_id : r.request_id ≡ id
  pub told : r.success ≡ is_some r.content
  pub one_of_both : is_some r.error ≡ not (is_some r.content)

module _ {F : Type 0} (id : Text) where
  -- A response that is no refusal.
  pub record IsPlain (r : Response F) : Type 0 where
    pub answers : IsResponseTo id r
    pub no_refusal : is_refusal r.error ≡ false

  -- A case that answers the request, and that refuses it only before it has changed anything.
  abbrev pub IsCareful : Handler F → Type 0
  IsCareful h =
      (w : World F) (s : Store F)
      → IsResponseTo id (h w s).0 × (is_refusal (h w s).0.error ≡ true → (h w s).1 ≡ s)

  pub success-IsPlain : (x : Reply F) → IsPlain (backend_rpc_success id x)
  success-IsPlain x = record {
    answers = record { same_id = refl; told = refl; one_of_both = refl };
    no_refusal = refl;
  }

  pub failure-IsPlain :
      (code message : Text)
      → text_eq code (codes "VALIDATION_ERROR") ≡ false
      → IsPlain (backend_rpc_failure id code message)
  failure-IsPlain code message h = record {
    answers = record { same_id = refl; told = refl; one_of_both = refl };
    no_refusal = h;
  }

  pub read_failure-IsPlain :
      (e : Err) (target : Option Err) (code message : Text)
      → text_eq code (codes "VALIDATION_ERROR") ≡ false
      → IsPlain (backend_read_failure id e target code message)
  unfolding backend_read_failure
  read_failure-IsPlain e target code message h = ground arith

  pub offer_failure-IsPlain : (e : Err) → IsPlain (offer_failure id e)
  unfolding offer_failure
  offer_failure-IsPlain e = ground arith

  pub Answers-IsPlain-call :
      {A : Type 0} (m : Action F A) (failure : Err → Response F) (rest : A → Handler F)
      → ((e : Err) → IsPlain (failure e))
      → ((a : A) → Answers IsPlain (rest a))
      → Answers IsPlain (call m failure rest)
  Answers-IsPlain-call m failure rest p q =
      Answers-call IsPlain (λ a. Unit {0}) m failure rest (λ w s a s' e. tt) p (λ a x. q a)

  pub respond-IsCareful : (r : Response F) → IsResponseTo id r → IsCareful (respond r)
  respond-IsCareful r h w s = (h, λ e. refl)

  pub refuse-IsCareful : (message : Text) → IsCareful (respond (validation_error id message))
  refuse-IsCareful message =
      respond-IsCareful (validation_error id message)
        (record { same_id = refl; told = refl; one_of_both = refl })

  pub if-IsCareful :
      (c : Bool) (h k : Handler F) → IsCareful h → IsCareful k → IsCareful (if c then h else k)
  if-IsCareful true h k p q = p
  if-IsCareful false h k p q = q

  plain-IsCareful : (h : Handler F) → Answers IsPlain h → IsCareful h
  plain-IsCareful h p w s = ((p w s).answers, λ e. absurd (cc ((p w s).no_refusal, e)))

  pub call-IsCareful :
      {A : Type 0} (m : Action F A) (failure : Err → Response F) (rest : A → Handler F)
      → ((e : Err) → IsPlain (failure e))
      → ((a : A) → Answers IsPlain (rest a))
      → IsCareful (call m failure rest)
  call-IsCareful m failure rest p q =
      plain-IsCareful (call m failure rest) (Answers-IsPlain-call m failure rest p q)

-- The rules by which a case is careful.
pub ruleset careful = (
  refuse-IsCareful, if-IsCareful, call-IsCareful, Answers-if, Answers-IsPlain-call,
  read_failure-IsPlain, offer_failure-IsPlain, failure-IsPlain, success-IsPlain,
)
