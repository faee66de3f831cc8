-- ===== src/Base/Rows.antt =====
-- Lemmas on tables as lists of rows: properties of all rows and keys without repetition, under the
-- appending of a row and under an update.
use mathlib.Core.Path.{subst}
use dsk_agent.Base.{
  ◌≡◌, ◌≢◌, refl, sym, ◌&&◌, Bool, true, false, none, some, List, [], ◌∷◌, ◌++◌, map, arith, All,
  All-append, any, find, update_where, inl, inr, Bool-cases, ap,
}

module _ {A : Type 0} where
  pub All-update_where :
      (P : A → Type 0) (test : A → Bool) (f : A → A)
      → ((x : A) → test x ≡ true → P x → P (f x))
      → (l : List A) → All P l
      → All P (update_where test f l)
  All-update_where P test f keep [] h = tt
  All-update_where P test f keep (x ∷ l) h = (
    elim (Bool-cases (test x)) [ inl e ↦ rw e (keep x e h.0) | inr e ↦ rw e h.0 ],
    All-update_where P test f keep l h.1,
  )

  pub All-map : (P Q : A → Type 0) → ((x : A) → P x → Q x) → (l : List A) → All P l → All Q l
  All-map P Q f [] h = tt
  All-map P Q f (x ∷ l) h = (f x h.0, All-map P Q f l h.1)

  -- A row that a search finds passes the test.
  pub find_test : (test : A → Bool) (l : List A) {x : A} → find test l ≡ some x → test x ≡ true
  find_test test [] h = cc
  find_test test (y ∷ l) {x} h = elim (Bool-cases (test y)) [
    | inl e ↦ ground (arith, e)
    | inr e ↦ find_test test l (rw e at h)
  ]

  pub find_All :
      (P : A → Type 0) (test : A → Bool) (l : List A) {x : A} → All P l → find test l ≡ some x → P x
  find_All P test [] h e = cc
  find_All P test (y ∷ l) {x} h e = elim (Bool-cases (test y)) [
    | inl t ↦ let same : some y ≡ some x = (rw t at e) in let eq : y ≡ x = cc same in subst P eq h.0
    | inr f ↦ find_All P test l h.1 (rw f at e)
  ]

  -- A search that finds nothing refutes the test for every row.
  pub find-none : (test : A → Bool) (l : List A) → find test l ≡ none → All (λ x. test x ≡ false) l
  find-none test [] h = tt
  find-none test (x ∷ l) h = elim (Bool-cases (test x)) [
    | inl e ↦ absurd (ground (arith, e))
    | inr e ↦ (e, find-none test l (rw e at h))
  ]

  -- The first row that passes a test and a second one as well is the first that passes both.
  pub find_both :
      (test more : A → Bool) (l : List A) {x : A}
      → find test l ≡ some x
      → more x ≡ true
      → find (λ y. test y && more y) l ≡ some x
  find_both test more [] h m = cc
  find_both test more (y ∷ l) {x} h m = elim (Bool-cases (test y)) [
    | inl e ↦
        let same : some y ≡ some x = (rw e at h) in
        let eq : y ≡ x = cc same in rw (e, ap more eq, m) same
    | inr e ↦ rw e (find_both test more l (rw e at h) m)
  ]

  -- The first row that passes, after an update of some rows that changes no test.
  pub find_updated :
      (test more : A → Bool) (f : A → A)
      → ((y : A) → more y ≡ true → test (f y) ≡ test y)
      → (l : List A) {x : A} → find test l ≡ some x
      → more x ≡ true
      → find test (update_where more f l) ≡ some (f x)
  find_updated test more f keeps [] h m = cc
  find_updated test more f keeps (y ∷ l) {x} h m = elim (Bool-cases (test y)) [
    | inl e ↦
        let same : some y ≡ some x = (rw e at h) in
        let eq : y ≡ x = cc same in
        let hit : more y ≡ true = (rw (ap more eq) m) in
        rw hit (rw (keeps y hit, e) (ap (λ z. some (f z)) eq))
    | inr e ↦ elim (Bool-cases (more y)) [
      | inl d ↦ rw (d, keeps y d, e) (find_updated test more f keeps l (rw e at h) m)
      | inr d ↦ rw (d, e) (find_updated test more f keeps l (rw e at h) m)
    ]
  ]

  -- A row that is appended is found where no earlier row passes.
  pub find-append :
      (test : A → Bool) (l : List A) (x : A)
      → find test l ≡ none
      → test x ≡ true
      → find test (l ++ x ∷ []) ≡ some x
  find-append test [] x h t = rw t refl
  find-append test (y ∷ l) x h t = elim (Bool-cases (test y)) [
    | inl e ↦ absurd (ground (arith, e))
    | inr e ↦ rw e (find-append test l x (rw e at h) t)
  ]

  -- After an update of every row that passes into one that does not, no row passes.
  pub any-update_where :
      (test : A → Bool) (f : A → A)
      → ((x : A) → test (f x) ≡ false)
      → (l : List A) → any test (update_where test f l) ≡ false
  any-update_where test f clears [] = refl
  any-update_where test f clears (x ∷ l) = elim (Bool-cases (test x)) [
    | inl e ↦ rw (e, clears x) (any-update_where test f clears l)
    | inr e ↦ rw (e, e) (any-update_where test f clears l)
  ]

  -- Where no row passes, a search finds nothing.
  pub find_absent :
      (test : A → Bool) (l : List A) → All (λ x. test x ≡ false) l → find test l ≡ none
  find_absent test [] h = refl
  find_absent test (x ∷ l) h = rw h.0 (find_absent test l h.1)

  -- After an update of every row that passes into one that does not, none passes.
  pub update_where_clears :
      (test : A → Bool) (f : A → A)
      → ((x : A) → test (f x) ≡ false)
      → (l : List A) → find test (update_where test f l) ≡ none
  update_where_clears test f clears [] = refl
  update_where_clears test f clears (x ∷ l) = elim (Bool-cases (test x)) [
    | inl e ↦ rw (e, clears x) (update_where_clears test f clears l)
    | inr e ↦ rw (e, e) (update_where_clears test f clears l)
  ]

module _ {K : Type 0} where
  -- No element occurs twice.
  abbrev pub NoRepeat : List K → Type 0
  NoRepeat [] = Unit
  NoRepeat (k ∷ l) = All (λ j. j ≢ k) l × NoRepeat l

  pub NoRepeat-snoc :
      (l : List K) (k : K) → NoRepeat l → All (λ j. j ≢ k) l → NoRepeat (l ++ k ∷ [])
  NoRepeat-snoc [] k h fresh = (tt, tt)
  NoRepeat-snoc (j ∷ l) k h fresh = (
    All-append (λ i. i ≢ j) l (k ∷ []) h.0 (λ e. fresh.0 (sym e), tt),
    NoRepeat-snoc l k h.1 fresh.1,
  )

module _ {A K : Type 0} (key : A → K) where
  pub keys-append : (l m : List A) → map key (l ++ m) ≡ map key l ++ map key m
  keys-append [] m = refl
  keys-append (x ∷ l) m = ap (λ r. key x ∷ r) (keys-append l m)

  pub keys-update_where :
      (test : A → Bool) (f : A → A)
      → ((x : A) → key (f x) ≡ key x)
      → (l : List A) → map key (update_where test f l) ≡ map key l
  keys-update_where test f same [] = refl
  keys-update_where test f same (x ∷ l) = elim (Bool-cases (test x)) [
    | inl e ↦ rw (e, same x, keys-update_where test f same l)
    | inr e ↦ rw (e, keys-update_where test f same l)
  ]

  pub keys-All : (P : K → Type 0) (l : List A) → All (λ x. P (key x)) l → All P (map key l)
  keys-All P [] h = tt
  keys-All P (x ∷ l) h = (h.0, keys-All P l h.1)
