-- ===== src/Http/Answered.antt =====
-- Handlers that answer every request with a status and never panic.
use dsk_agent.Base.{
  ℕ, ◌≤◌, ◌<◌, ◌≡◌, refl, Bool, true, false, Option, none, some, arith, ◌≢◌, if◌then◌else◌, inl,
  inr,
}
use dsk_agent.Domain.Error.{Err, Result, ok, err}
use dsk_agent.Db.{World, Store, Action, pure}
use dsk_agent.Db.Laws.{answer-cases}
use dsk_agent.Http.{
  Refusal, http_error, http_cause, panicked, Response, written, refusal, Handler, refuse, on_value,
  need, call, reply,
}

-- A status that goes with a value, and one that goes with an error: no panic.
abbrev pub IsFine : Refusal → Type 0
IsFine (http_error n text) = (400 ≤ n) × (n < 600)
IsFine (http_cause n e) = (400 ≤ n) × (n < 600)
IsFine panicked = ⊥

abbrev pub IsResponse : {A : Type 0} → Response A → Type 0
IsResponse (written n a) = (200 ≤ n) × (n < 600)
IsResponse (refusal r) = IsFine r

abbrev pub IsAnswer : {A : Type 0} → Result (Response A) → Type 0
IsAnswer (ok r) = IsResponse r
IsAnswer (err e) = ⊥

-- Whatever the database does.
abbrev pub Answers : {F A : Type 0} → Handler F A → Type 0
Answers {F = F} h = (w : World F) (s : Store F) → IsAnswer (h w s).0

pub Answers-refuse :
    {F : Type 0} (A : Type 0) (r : Refusal) → IsFine r → Answers {F = F} {A = A} (refuse r)
Answers-refuse A r fine w s = fine

module _ {F : Type 0} {A : Type 0} where
  pub Answers-written : (n : ℕ) (a : A) → 200 ≤ n → n < 600 → Answers {F = F} (pure (written n a))
  Answers-written n a low high w s = (low, high)

  pub Answers-if :
      (c : Bool) (m k : Handler F A) → Answers m → Answers k → Answers (if c then m else k)
  Answers-if true m k p q = p
  Answers-if false m k p q = q

module _ {F : Type 0} {A B : Type 0} where
  pub Answers-value :
      (r : Response A) (f : A → Handler F B)
      → IsResponse r
      → ((a : A) → Answers (f a))
      → Answers (on_value f r)
  Answers-value (written n a) f p q w s = q a w s
  Answers-value (refusal r) f p q w s = p

  pub Answers-need :
      (o : Option A) (r : Refusal) (f : A → Handler F B)
      → IsFine r
      → ((a : A) → Answers (f a))
      → Answers (need o r f)
  Answers-need none r f p q w s = p
  Answers-need (some a) r f p q w s = q a w s

  pub Answers-call :
      (m : Action F A) (r : Err → Refusal) (f : A → Handler F B)
      → ((e : Err) → IsFine (r e))
      → ((a : A) → Answers (f a))
      → Answers (call m r f)
  Answers-call m r f p q w s = elim (answer-cases (m w s)) [
    | inl (a, s1, e) ↦ rw e (q a w s1)
    | inr (x, s1, e) ↦ rw e (p x)
  ]

pub Answers-reply :
    {F A : Type 0} (n : ℕ) (m : Action F A) (r : Err → Refusal)
    → 200 ≤ n
    → n < 600
    → ((e : Err) → IsFine (r e))
    → Answers (reply n m r)
Answers-reply n m r low high p = Answers-call m r _ p (λ a. Answers-written n a low high)

pub ruleset answering = (
  Answers-written, Answers-refuse, Answers-if, Answers-value, Answers-need, Answers-call,
  Answers-reply, arith,
)
