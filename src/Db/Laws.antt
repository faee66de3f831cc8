-- ===== src/Db/Laws.antt =====
-- What every transaction guarantees, and rules for what an action returns.
use dsk_agent.Base.{
  ℕ, ◌+◌, ap, Option, none, some, Bool, true, false, ◌≡◌, refl, arith, ◌⊎◌, inl, inr, Bool-cases,
  Option-cases, if◌then◌else◌,
}
use dsk_agent.Domain.Error.{Err, Result, ok, err}
use dsk_agent.Db.{
  Action, World, Store, ◌>>=◌, pure, throw, lift, refuse_if, commit, transaction, stopped, Columns,
  Tables, exec, exec_tx, or_throw, run_statement,
}

module _ {F : Type 0} {A : Type 0} (m : Action F A) (w : World F) (s : Store F) where
  -- A transaction that returns an error leaves the tables as other sessions made them before it.
  pub transaction_undone :
      {e : Err} {s' : Store F}
      → transaction m w s ≡ (err e, s')
      → s'.tables ≡ (w.slot s.tick).others s.tables
  unfolding transaction commit
  transaction_undone h = ground arith

-- Every value that the action returns in the world has the property.
abbrev pub Returns : {F A : Type 0} → World F → Action F A → (A → Type 0) → Type 0
Returns {F = F} {A = A} w m P = (s : Store F) (a : A) (s' : Store F) → m w s ≡ (ok a, s') → P a

pub answer-cases :
    {F A : Type 0} (r : Result A × Store F)
    → ((a : A) × (s : Store F) × (r ≡ (ok a, s))) ⊎ ((e : Err) × (s : Store F) × (r ≡ (err e, s)))
answer-cases (ok a, s) = inl (a, s, refl)
answer-cases (err e, s) = inr (e, s, refl)

-- A sequence that returns a value has run its first action to a value, and the rest from there.
pub bind-ok :
    {F A B : Type 0} (m : Action F A) (f : A → Action F B) (w : World F) (s : Store F) (b : B)
    (s' : Store F)
    → (m >>= f) w s ≡ (ok b, s')
    → (a : A) × (s1 : Store F) × (m w s ≡ (ok a, s1)) × (f a w s1 ≡ (ok b, s'))
bind-ok m f w s b s' e = elim (answer-cases (m w s)) [
  | inl (a, s1, h) ↦ (a, s1, h, cc (h, e))
  | inr (x, s1, h) ↦ absurd (ground (arith, h, e))
]

module _ {F A : Type 0} (w : World F) (s : Store F) {a : A} {s' : Store F} where
  pub after-lift :
      {B : Type 0} (r : Result B) (f : B → Action F A)
      → (lift r >>= f) w s ≡ (ok a, s')
      → (b : B) × (r ≡ ok b) × (f b w s ≡ (ok a, s'))
  after-lift (ok b) f h = (b, refl, h)
  after-lift (err x) f h = absurd (ground (arith, h))

  pub after-refuse :
      (c : Bool) (x : Err) (f : Unit {0} → Action F A)
      → (refuse_if c x >>= f) w s ≡ (ok a, s')
      → (c ≡ false) × (f tt w s ≡ (ok a, s'))
  after-refuse true x f h = absurd (ground (arith, h))
  after-refuse false x f h = (refl, h)

  pub after-or_throw :
      {B : Type 0} (o : Option B) (x : Err) (f : B → Action F A)
      → (or_throw o x >>= f) w s ≡ (ok a, s')
      → (b : B) × (o ≡ some b) × (f b w s ≡ (ok a, s'))
  after-or_throw none x f h = absurd (ground (arith, h))
  after-or_throw (some b) x f h = (b, refl, h)

  pub exec_tx-ok :
      (f : Columns F → ℕ → Tables F → A × Tables F)
      → exec_tx f w s ≡ (ok a, s')
      → let r = f w.columns (w.slot s.tick).now s.tables in
        (a ≡ r.0) × (s' ≡ record s { tables = r.1; tick = s.tick + 1 })
  unfolding exec_tx
  exec_tx-ok f h = ground (arith, h)

  pub pure-ok : (b : A) → pure b w s ≡ (ok a, s') → (b ≡ a) × (s ≡ s')
  pure-ok b h = ground (arith, h)

module _ {F : Type 0} (w : World F) where
  module _ {A B : Type 0} where
    pub Returns-bind :
        (m : Action F A) (f : A → Action F B) (P : A → Type 0) (Q : B → Type 0)
        → Returns w m P
        → ((a : A) → P a → Returns w (f a) Q)
        → Returns w (m >>= f) Q
    Returns-bind m f P Q hm hf s b s' e = elim (answer-cases (m w s)) [
      | inl (a, s1, h) ↦ hf a (hm s a s1 h) s1 b s' (cc (h, e))
      | inr (x, s1, h) ↦ absurd (ground (arith, h, e))
    ]

    -- After any action.
    pub Returns-after :
        (m : Action F A) (f : A → Action F B) (Q : B → Type 0)
        → ((a : A) → Returns w (f a) Q)
        → Returns w (m >>= f) Q
    Returns-after m f Q hf = Returns-bind m f (λ a. Unit {0}) Q (λ s a s' e. tt) (λ a x. hf a)

    pub Returns-after_lift :
        (r : Result A) (f : A → Action F B) (Q : B → Type 0)
        → ((a : A) → r ≡ ok a → Returns w (f a) Q)
        → Returns w (lift r >>= f) Q
    Returns-after_lift r f Q hf =
        Returns-bind (lift r) f (λ a. r ≡ ok a) Q (λ s a s' e. ground (arith, e)) hf

  module _ {A : Type 0} where
    pub Returns-pure : (a : A) (P : A → Type 0) → P a → Returns w (pure a) P
    Returns-pure a P p s b s' e = ground (arith, p, e)

    pub Returns-throw : (x : Err) (P : A → Type 0) → Returns w (throw x) P
    Returns-throw x P s b s' e = absurd (ground (arith, e))

    pub Returns-if :
        (c : Bool) (m n : Action F A) (P : A → Type 0)
        → (c ≡ true → Returns w m P)
        → (c ≡ false → Returns w n P)
        → Returns w (if c then m else n) P
    Returns-if c m n P on off s a s' e = elim (Bool-cases c) [
      | inl h ↦ on h s a s' (rw h at e)
      | inr h ↦ off h s a s' (rw h at e)
    ]

    pub Returns-after_refuse :
        (c : Bool) (x : Err) (f : Unit {0} → Action F A) (Q : A → Type 0)
        → (c ≡ false → Returns w (f tt) Q)
        → Returns w (refuse_if c x >>= f) Q
    Returns-after_refuse c x f Q hf s a s' e = elim (Bool-cases c) [
      | inl h ↦ absurd (ground (arith, rw h at e))
      | inr h ↦ hf h s a s' (rw h at e)
    ]

abbrev pub begun : {F : Type 0} → World F → Store F → Store F
begun w s = record s {
  tables = (w.slot s.tick).others s.tables;
  tick = s.tick + 1;
  aborted = false;
}

-- The world of a transaction that begins with the next statement.
abbrev pub stopped_at : {F : Type 0} → World F → Store F → World F
stopped_at w s = stopped w (w.slot s.tick).now

module _ {F A : Type 0} (w : World F) where
  commit-ok :
      (start : Tables F) (r : Result A × Store F) (a : A) (s' : Store F)
      → commit w start r ≡ (ok a, s')
      → (r.0 ≡ ok a) × (r.1.aborted ≡ false) × (s'.tables ≡ r.1.tables)
  unfolding commit
  commit-ok start (err e, s) a s' h = absurd (ground (arith, h))
  commit-ok start (ok b, s) a s' h = ground (arith, h)

  -- A transaction that returns a value has run its body to that value with no failed statement, and its tables
  -- stay.
  pub transaction-ok :
      (m : Action F A) (s : Store F) (a : A) (s' : Store F)
      → transaction m w s ≡ (ok a, s')
      → (s2 : Store F) × (m (stopped_at w s) (begun w s) ≡ (ok a, s2))
        × (s2.aborted ≡ false)
        × (s'.tables ≡ s2.tables)
  unfolding transaction
  transaction-ok m s a s' h = elim (Option-cases (w.slot s.tick).failure) [
    | inl e ↦
        let (value, live, kept) =
          commit-ok (begun w s).tables (m (stopped_at w s) (begun w s)) a s'
            (rw (e, transaction) at h) in
        (
          (m (stopped_at w s) (begun w s)).1,
          ap (λ r. (r, (m (stopped_at w s) (begun w s)).1)) value,
          live,
          kept,
        )
    | inr (x, e) ↦ absurd (ground (arith, h, e))
  ]

-- A sequence whose first action returns a value goes on from there.
pub bind-run :
    {F A B : Type 0} (m : Action F A) (f : A → Action F B) (w : World F) (s : Store F) {a : A}
    {s1 : Store F}
    → m w s ≡ (ok a, s1)
    → (m >>= f) w s ≡ f a w s1
bind-run m f w s h = ground (arith, h)

-- The other sessions change nothing and no statement fails.
pub record IsQuiet {F : Type 0} (w : World F) : Type 0 where
  pub others : (n : ℕ) (t : Tables F) → (w.slot n).others t ≡ t
  pub no_failure : (n : ℕ) → (w.slot n).failure ≡ none

module _ {F : Type 0} {A : Type 0} (w : World F) (q : IsQuiet w) where
  -- What a statement returns and leaves in a quiet world.
  pub exec-quiet :
      (f : Columns F → ℕ → Tables F → A × Tables F) (s : Store F)
      → exec f w s ≡ (
          let r = f w.columns (w.slot s.tick).now s.tables in
          (ok r.0, record s { tables = r.1; tick = s.tick + 1 }))
  unfolding exec run_statement
  exec-quiet f s = rw (q.others s.tick s.tables, q.no_failure s.tick) refl
