-- ===== src/Base/Sort.antt =====
-- A stable sort by a strict order given as a test: `ORDER BY`, and Go's `sort.SliceStable`.
use dsk_agent.Base.{Bool, true, false, List, [], ◌∷◌, if◌then◌else◌, All, ◌≡◌, Bool-cases, inl, inr}
use mathlib.Core.List.{Perm}
use mathlib.Core.List.Perm

module _ {A : Type 0} (before : A → A → Bool) where
  -- Behind everything that is not after `a`.
  pub insert : A → List A → List A
  insert a [] = a ∷ []
  insert a (b ∷ l) = let later = insert a l in if before b a then b ∷ later else a ∷ b ∷ l

  unfoldable pub sort : List A → List A
  unfolding insert
  sort [] = []
  sort (a ∷ l) = insert a (sort l)

  insert-perm : (a : A) (l : List A) → Perm (insert a l) (a ∷ l)
  unfolding insert
  insert-perm a [] = Perm.refl (a ∷ [])
  insert-perm a (b ∷ l) =
      elim (before b a) as (λ t. Perm (if t then b ∷ insert a l else a ∷ b ∷ l) (a ∷ b ∷ l)) [
        | true ↦ Perm.trans (Perm.cons b (insert-perm a l)) (Perm.swap a b l)
        | false ↦ Perm.refl (a ∷ b ∷ l)
      ]

  -- Sorting permutes the list.
  pub sort-perm : (l : List A) → Perm (sort l) l
  unfolding sort
  sort-perm [] = Perm.refl []
  sort-perm (a ∷ l) = Perm.trans (insert-perm a (sort l)) (Perm.cons a (sort-perm l))

-- Each of the list stands to all that come after it as `R` says.
abbrev pub IsOrdered : {A : Type 0} → (A → A → Type 0) → List A → Type 0
IsOrdered R [] = Unit
IsOrdered R (a ∷ l) = All (R a) l × IsOrdered R l

module _ {A : Type 0} (before : A → A → Bool) where
  insert-All : (P : A → Type 0) (a : A) (l : List A) → P a → All P l → All P (insert before a l)
  unfolding insert
  insert-All P a [] p h = (p, tt)
  insert-All P a (b ∷ l) p h =
      elim (before b a) as (λ t. All P (if t then b ∷ insert before a l else a ∷ b ∷ l)) [
        | true ↦ (h.0, insert-All P a l p h.1)
        | false ↦ (p, h)
      ]

  pub sort-All : (P : A → Type 0) (l : List A) → All P l → All P (sort before l)
  unfolding sort
  sort-All P [] h = tt
  sort-All P (a ∷ l) h = insert-All P a (sort before l) h.0 (sort-All P l h.1)

  module _ (R : A → A → Type 0) (first : (a b : A) → before a b ≡ true → R a b)
      (last : (a b : A) → before b a ≡ false → R a b)
      (chain : (a b c : A) → R a b → R b c → R a c) where
    All-chain : (a b : A) (l : List A) → R a b → All (R b) l → All (R a) l
    All-chain a b [] r h = tt
    All-chain a b (c ∷ l) r h = (chain a b c r h.0, All-chain a b l r h.1)

    insert-IsOrdered : (a : A) (l : List A) → IsOrdered R l → IsOrdered R (insert before a l)
    unfolding insert
    insert-IsOrdered a [] h = (tt, tt)
    insert-IsOrdered a (b ∷ l) h = elim (Bool-cases (before b a)) [
      | inl e ↦ rw (e, insert) (insert-All (R b) a l (first b a e) h.0, insert-IsOrdered a l h.1)
      | inr e ↦ rw (e, insert) ((last a b e, All-chain a b l (last a b e) h.0), h)
    ]

    -- What is sorted by a test that decides such an `R` is ordered by it.
    pub sort-IsOrdered : (l : List A) → IsOrdered R (sort before l)
    unfolding sort
    sort-IsOrdered [] = tt
    sort-IsOrdered (a ∷ l) = insert-IsOrdered a (sort before l) (sort-IsOrdered l)
