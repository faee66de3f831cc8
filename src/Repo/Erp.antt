-- ===== src/Repo/Erp.antt =====
-- backend/internal/repository/erp.go.
use dsk_agent.Base.{
  ℕ, ◌+◌, ◌&&◌, Bool, none, some, List, [], ◌∷◌, ◌++◌, ◌==◌, ltb, find, select, update_where,
}
use dsk_agent.Base.Text.{text_eq}
use dsk_agent.Base.Sort.{sort}
use dsk_agent.Domain.Construction.{ErpEvent, MaterialStock, ProductionSchedule}
use dsk_agent.Db.{Action, Columns, Tables, query, exec}

module _ {F : Type 0} where
  -- `ListEvents`.
  unfoldable pub list_events : ℕ → Action F (List ErpEvent)
  list_events building_id = query λ now t.
      sort (λ a b. ltb b.occurred_at a.occurred_at)
        (select (λ e. e.building_id == building_id) t.erp_events)

  -- `ListMaterialStocks`.
  unfoldable pub list_material_stocks : ℕ → Action F (List (MaterialStock F))
  list_material_stocks building_id = exec λ c now t. (
    sort (λ a b. c.text_before a.material_name b.material_name)
        (select (λ m. m.building_id == building_id) t.material_stocks),
    t,
  )

  -- `ListProductionSchedules`.
  unfoldable pub list_production_schedules : ℕ → Action F (List ProductionSchedule)
  list_production_schedules building_id = query λ now t.
      sort (λ a b. ltb a.planned_date b.planned_date)
        (select (λ p. p.building_id == building_id) t.production_schedules)

  -- `CreateEvent`: the event with its new id.
  unfoldable pub create_event : ErpEvent → Action F ErpEvent
  create_event item = exec λ c now t.
      let row : ErpEvent = record item { id = t.next_id } in
      (row, record t { next_id = t.next_id + 1; erp_events = t.erp_events ++ row ∷ [] })

  abbrev pub same_stock : MaterialStock F → MaterialStock F → Bool
  same_stock a b = (a.building_id == b.building_id) && text_eq a.material_name b.material_name

  -- `INSERT … ON CONFLICT (building_id, material_name) DO UPDATE …`.
  unfoldable pub put_stock : Columns F → ℕ → MaterialStock F → Tables F → MaterialStock F × Tables F
  put_stock c now item t = elim (find (λ m. same_stock m item) t.material_stocks) [
    | none ↦
        let row : MaterialStock F = record item {
          id = t.next_id;
          quantity = c.quantity item.quantity;
          minimum_quantity = c.quantity item.minimum_quantity;
          updated_at = now;
        } in
        (row, record t { next_id = t.next_id + 1; material_stocks = t.material_stocks ++ row ∷ [] })
    | some old ↦
        let change : MaterialStock F → MaterialStock F = λ m. record m {
          quantity = c.quantity item.quantity;
          unit = item.unit;
          minimum_quantity = c.quantity item.minimum_quantity;
          updated_at = now;
        } in
        (
          change old,
          record t {
            next_id = t.next_id + 1;
            material_stocks = update_where (λ m. same_stock m item) change t.material_stocks;
          },
        )
  ]

  -- `UpsertMaterialStock`: the item with the row's id and time.
  unfoldable pub upsert_material_stock : MaterialStock F → Action F (MaterialStock F)
  unfolding put_stock
  upsert_material_stock item = exec λ c now t.
      let (row, t') = put_stock c now item t in
      (record item { id = row.id; updated_at = row.updated_at }, t')

  -- `CreateProductionSchedule`: the item with its new id and time.
  unfoldable pub create_production_schedule : ProductionSchedule → Action F ProductionSchedule
  create_production_schedule item = exec λ c now t.
      let row : ProductionSchedule = record item { id = t.next_id; updated_at = now } in
      (
        row,
        record t {
          next_id = t.next_id + 1;
          production_schedules = t.production_schedules ++ row ∷ [];
        },
      )
