-- ===== src/Repo/Account/Merge.antt =====
-- What a patch leaves of a client's preferences.
use dsk_agent.Base.{
  if◌then◌else◌, is_some, ◌≡◌, refl, ap, ◌∙◌, Bool, not, Option, none, some, List, [], ◌∷◌, ◌++◌,
  find, any, select, arith, Bool-cases, inl, inr,
}
use dsk_agent.Base.Text.{Text, text_eq, text_eq→eq}
use dsk_agent.Domain.Account.{Preferences}
use dsk_agent.Repo.Account.{merged}

-- The member with a key.
abbrev pub member : Text → Preferences → Option (Text × Text)
member key l = find (λ m. text_eq m.0 key) l

abbrev pub or_else : {A : Type 0} → Option A → Option A → Option A
or_else none o = o
or_else (some a) o = some a

abbrev names : Preferences → Text × Text → Bool
names patch m = any (λ p. text_eq p.0 m.0) patch

find-append {ℓ} :
    {A : Type ℓ} (test : A → Bool) (l m : List A)
    → find test (l ++ m) ≡ elim (find test l) [ none ↦ find test m | some a ↦ some a ]
find-append test [] m = refl
find-append test (x ∷ l) m = elim (Bool-cases (test x)) [
  | inl e ↦ rw e refl
  | inr e ↦ rw e (find-append test l m)
]

any-find :
    (key : Text) (patch : Preferences)
    → any (λ p. text_eq p.0 key) patch ≡ is_some (member key patch)
any-find key [] = refl
any-find key (p ∷ patch) = ground (arith, any-find key patch)

-- The old members with a key that the patch names are dropped, and those with another key are kept.
kept :
    (key : Text) (patch old : Preferences)
    → member key (select (λ m. not (names patch m)) old)
      ≡ (if is_some (member key patch) then none else member key old)
kept key patch [] = ground arith
kept key patch (m ∷ old) = elim (Bool-cases (text_eq m.0 key)) [
  | inl e ↦
      let same : names patch m ≡ is_some (member key patch) =
        ap (λ k. any (λ p. text_eq p.0 k) patch) (text_eq→eq m.0 key e) ∙ any-find key patch in
      ground (arith, e, same, kept key patch old)
  | inr e ↦ ground (arith, e, kept key patch old)
]

-- After a patch each key has the value that the patch gives it, and its old value where the patch gives none.
pub merged-member :
    (key : Text) (old patch : Preferences)
    → member key (merged old patch) ≡ or_else (member key patch) (member key old)
unfolding merged
merged-member key old patch = ground (
  arith,
  kept key patch old,
  find-append (λ m. text_eq m.0 key) (select (λ m. not (names patch m)) old) patch,
)
