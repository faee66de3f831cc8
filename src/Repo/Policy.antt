-- ===== src/Repo/Policy.antt =====
-- backend/internal/repository/discount_policy.go. `Create` runs in a transaction.
use dsk_agent.Base.{
  ℕ, ◌+◌, Bool, true, false, ◌&&◌, ◌||◌, Option, none, some, List, [], ◌∷◌, ◌++◌, ltb, leb, ◌==◌,
  find, select, update_where, if◌then◌else◌,
}
use dsk_agent.Base.Text.{Text, codes, text_eq}
use dsk_agent.Base.Sort.{sort}
use dsk_agent.Domain.Error.{discount_policy_not_found}
use dsk_agent.Domain.Account.{Role, user, manager, supervisor}
use dsk_agent.Domain.Estate.{DiscountPolicyRecord}
use dsk_agent.Db.{
  Action, Columns, Tables, exec, ◌>>=◌, ◌>>◌, pure, or_throw, query, exec_tx, transaction,
}

abbrev pub same_role : Role → Role → Bool
same_role user user = true
same_role manager manager = true
same_role supervisor supervisor = true
same_role (Role.other a) (Role.other b) = text_eq a b
same_role _ _ = false

abbrev pub is_active : ℕ → DiscountPolicyRecord → Bool
is_active now p =
    leb p.valid_from now && elim p.valid_to [ none ↦ true | some until ↦ ltb now until ]

-- `ORDER BY valid_from DESC, version DESC`.
abbrev pub newer : DiscountPolicyRecord → DiscountPolicyRecord → Bool
newer p q =
    ltb q.valid_from p.valid_from || ((p.valid_from == q.valid_from) && ltb q.version p.version)

abbrev pub first : {A : Type 0} → List A → Option A
first [] = none
first (a ∷ l) = some a

-- The maximum of a policy's versions, 0 where there is none.
abbrev pub max_version : List DiscountPolicyRecord → ℕ
max_version [] = 0
max_version (p ∷ ps) = let rest = max_version ps in if ltb rest p.version then p.version else rest

abbrev pub of_building_and_role : ℕ → Role → DiscountPolicyRecord → Bool
of_building_and_role building_id role p = (p.building_id == building_id) && same_role p.role role

-- The `UPDATE` of `Create`: the open policy ends where the new one begins.
unfoldable pub close_open_policies :
    ℕ → Role → ℕ → List DiscountPolicyRecord → List DiscountPolicyRecord
close_open_policies building_id role valid_from =
    update_where
      (λ p.
        of_building_and_role building_id role p
        && elim p.valid_to [ none ↦ true | some until ↦ false ]
        && ltb p.valid_from valid_from)
      (λ p. record p { valid_to = some valid_from })

abbrev pub role_text : Role → Text
role_text user = codes "user"
role_text manager = codes "manager"
role_text supervisor = codes "supervisor"
role_text (Role.other text) = text

module _ {F : Type 0} where
  -- `ORDER BY role, version DESC`.
  abbrev pub policy_before : Columns F → DiscountPolicyRecord → DiscountPolicyRecord → Bool
  policy_before c p q =
      c.text_before (role_text p.role) (role_text q.role)
      || (same_role p.role q.role && ltb q.version p.version)

  -- `ListByBuilding`.
  unfoldable pub list_by_building : ℕ → Action F (List DiscountPolicyRecord)
  list_by_building building_id = exec λ c now t.
      (sort (policy_before c) (select (λ p. p.building_id == building_id) t.discount_policies), t)

  -- The join of `GetActiveMax` on the tables.
  unfoldable pub active_policy : ℕ → Role → ℕ → Tables F → Option DiscountPolicyRecord
  active_policy apartment_id role now t = elim (find (λ a. a.id == apartment_id) t.apartments) [
    | none ↦ none
    | some a ↦ first (
        sort newer (
          select (λ p. of_building_and_role a.building_id role p && is_active now p)
            t.discount_policies))
  ]

  -- `GetActiveMax`.
  unfoldable pub get_active_max : ℕ → Role → Action F Text
  unfolding active_policy
  get_active_max apartment_id role = do
    found ← query (active_policy apartment_id role)
    p ← or_throw found discount_policy_not_found
    pure p.max_discount_percent

  -- `Create`.
  unfoldable pub create : ℕ → Role → Text → ℕ → ℕ → Action F DiscountPolicyRecord
  unfolding close_open_policies
  create building_id role max_discount_percent valid_from actor_id = transaction do
    exec_tx λ c now t.
        let policies = close_open_policies building_id role valid_from t.discount_policies in
        (tt, record t { discount_policies = policies })
    exec_tx λ c now t.
        let row : DiscountPolicyRecord = record {
          id = t.next_id;
          building_id = building_id;
          role = role;
          max_discount_percent = c.percent_text max_discount_percent;
          version =
              max_version (select (of_building_and_role building_id role) t.discount_policies) + 1;
          valid_from = valid_from;
          valid_to = none;
          created_by = actor_id;
          created_at = now;
        } in
        (
          row,
          record t { next_id = t.next_id + 1; discount_policies = t.discount_policies ++ row ∷ [] },
        )
