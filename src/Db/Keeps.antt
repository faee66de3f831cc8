-- ===== src/Db/Keeps.antt =====
-- Rules for actions that leave a view of the tables as it is, in a quiet world.
use dsk_agent.Base.{
  sym, arith, ℕ, ◌≡◌, refl, ◌∙◌, ap, Bool, true, false, Option, none, some, inl, inr, if◌then◌else◌,
}
use dsk_agent.Domain.Error.{Err, Result, err}
use dsk_agent.Db.{Action, World, Store, Tables, Columns, exec, ◌>>=◌, lift, or_throw, pure}
use dsk_agent.Db.Laws.{IsQuiet, exec-quiet, answer-cases, bind-run}

module _ {F K : Type 0} (view : Tables F → K) (w : World F) where
  abbrev pub Keeps : {A : Type 0} → Action F A → Type 0
  Keeps m = (s : Store F) → view (m w s).1.tables ≡ view s.tables

  module _ {A : Type 0} where
    pub Keeps-pure : (a : A) → Keeps (pure a)
    Keeps-pure a s = refl

    pub Keeps-lift : (r : Result A) → Keeps (lift r)
    Keeps-lift r s = refl

    pub Keeps-or_throw : (o : Option A) (e : Err) → Keeps (or_throw o e)
    Keeps-or_throw none e s = refl
    Keeps-or_throw (some a) e s = refl

    pub Keeps-exec :
        IsQuiet w
        → (f : Columns F → ℕ → Tables F → A × Tables F)
        → ((c : Columns F) (now : ℕ) (t : Tables F) → view (f c now t).1 ≡ view t)
        → Keeps (exec f)
    Keeps-exec q f keep s =
        ap (λ r. view r.1.tables) (exec-quiet w q f s) ∙ keep w.columns (w.slot s.tick).now s.tables

  pub Keeps-bind :
      {A B : Type 0} (m : Action F A) (f : A → Action F B)
      → Keeps m
      → ((a : A) → Keeps (f a))
      → Keeps (m >>= f)
  Keeps-bind m f p q s = elim (answer-cases (m w s)) [
    | inl (a, s1, h) ↦
        ap (λ r. view r.1.tables) (bind-run m f w s h)
        ∙ q a s1
        ∙ sym (ap (λ r. view r.1.tables) h)
        ∙ p s
    | inr (e, s1, h) ↦
        let failed : (m >>= f) w s ≡ (err e, s1) = ground (arith, h) in
        ap (λ r. view r.1.tables) failed ∙ sym (ap (λ r. view r.1.tables) h) ∙ p s
  ]

  pub Keeps-if :
      {A : Type 0} (c : Bool) (m n : Action F A) → Keeps m → Keeps n → Keeps (if c then m else n)
  Keeps-if true m n p q = p
  Keeps-if false m n p q = q
