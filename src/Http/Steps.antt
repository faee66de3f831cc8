-- ===== src/Http/Steps.antt =====
-- What a chain of checks and calls has passed where it writes a value.
use dsk_agent.Base.{
  ℕ, Bool, true, false, ◌≡◌, refl, Option, none, some, inl, inr, arith, if◌then◌else◌,
}
use dsk_agent.Domain.Error.{Err, ok}
use dsk_agent.Db.{World, Store, Action}
use dsk_agent.Db.Laws.{answer-cases}
use dsk_agent.Http.{on_value, refuse, Response, written, refusal, Refusal, Handler, call, need}

module _ {F B : Type 0} (w : World F) (s : Store F) {n : ℕ} {b : B} {s' : Store F} where
  pub after-call :
      {A : Type 0} (m : Action F A) (r : Err → Refusal) (f : A → Handler F B)
      → call m r f w s ≡ (ok (written n b), s')
      → (a : A) × (s1 : Store F) × (m w s ≡ (ok a, s1)) × (f a w s1 ≡ (ok (written n b), s'))
  after-call m r f h = elim (answer-cases (m w s)) [
    | inl (a, s1, e) ↦ (a, s1, e, cc (h, e))
    | inr (x, s1, e) ↦ absurd (ground (arith, h, e))
  ]

  pub after-value :
      {A : Type 0} (r : Response A) (f : A → Handler F B)
      → on_value f r w s ≡ (ok (written n b), s')
      → (k : ℕ) × (a : A) × (r ≡ written k a) × (f a w s ≡ (ok (written n b), s'))
  after-value (written k a) f h = (k, a, refl, h)
  after-value (refusal r) f h = absurd (ground (arith, h))

  pub after-need :
      {A : Type 0} (o : Option A) (r : Refusal) (f : A → Handler F B)
      → need o r f w s ≡ (ok (written n b), s')
      → (a : A) × (o ≡ some a) × (f a w s ≡ (ok (written n b), s'))
  after-need none r f h = absurd (ground (arith, h))
  after-need (some a) r f h = (a, refl, h)

  pub after-test :
      (c : Bool) (r : Refusal) (f : Handler F B)
      → (if c then refuse r else f) w s ≡ (ok (written n b), s')
      → (c ≡ false) × (f w s ≡ (ok (written n b), s'))
  after-test true r f h = absurd (ground (arith, h))
  after-test false r f h = (refl, h)
