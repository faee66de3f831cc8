-- ===== src/Repo/Competitor.antt =====
-- backend/internal/repository/competitor.go.
use dsk_agent.Base.{
  ℕ, ◌+◌, ◌||◌, ◌&&◌, Bool, Option, none, some, List, [], ◌∷◌, ◌++◌, ◌==◌, ltb, find, select,
  update_where,
}
use dsk_agent.Base.Text.{Text, text_eq}
use dsk_agent.Base.Sort.{sort}
use dsk_agent.Domain.Error.{competitor_not_found}
use dsk_agent.Domain.Construction.{Competitor}
use dsk_agent.Db.{Action, Columns, ◌>>=◌, or_throw, exec}

module _ {F : Type 0} where
  -- `ORDER BY project_name, id`.
  abbrev pub project_before : Columns F → Competitor F → Competitor F → Bool
  project_before c p q =
      c.text_before p.project_name q.project_name
      || (text_eq p.project_name q.project_name && ltb p.id q.id)

  -- `ORDER BY district, project_name, id`.
  abbrev pub district_before : Columns F → Competitor F → Competitor F → Bool
  district_before c p q =
      c.text_before p.district q.district || (text_eq p.district q.district && project_before c p q)

  -- The columns that an INSERT and an UPDATE write.
  unfoldable pub competitor_row : Columns F → ℕ → ℕ → Competitor F → Competitor F
  competitor_row c id now item = record item {
    id = id;
    updated_at = now;
    area = elim item.area [ none ↦ none | some x ↦ some (c.money x) ];
  }

  -- `ListByDistrict`.
  unfoldable pub list_by_district : Text → Action F (List (Competitor F))
  list_by_district district = exec λ c now t. (
    sort (project_before c)
        (select (λ x. text_eq (c.lower x.district) (c.lower district)) t.competitors),
    t,
  )

  -- `List`.
  unfoldable pub list : Action F (List (Competitor F))
  list = exec λ c now t. (sort (district_before c) t.competitors, t)

  -- `Create`.
  unfoldable pub create : Competitor F → Action F (Competitor F)
  unfolding competitor_row
  create item = exec λ c now t.
      let row = competitor_row c t.next_id now item in
      (row, record t { next_id = t.next_id + 1; competitors = t.competitors ++ row ∷ [] })

  -- `Update`.
  unfoldable pub update : Competitor F → Action F (Competitor F)
  unfolding competitor_row
  update item = do
    updated ← exec {A = Option (Competitor F)} λ c now t.
        let rows =
          update_where (λ x. x.id == item.id) (λ x. competitor_row c x.id now item) t.competitors in
        (find (λ x. x.id == item.id) rows, record t { competitors = rows })
    or_throw updated competitor_not_found
