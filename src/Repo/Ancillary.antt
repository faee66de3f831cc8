-- ===== src/Repo/Ancillary.antt =====
-- backend/internal/repository/ancillary_unit.go.
use dsk_agent.Base.{
  ℕ, ◌+◌, Bool, ◌&&◌, ◌||◌, Option, none, some, List, [], ◌∷◌, ◌++◌, ◌==◌, find, select,
  update_where,
}
use dsk_agent.Base.Int.{ℤ}
use dsk_agent.Base.Text.{Text, codes}
use dsk_agent.Base.Sort.{sort}
use dsk_agent.Domain.Error.{ancillary_unit_not_found}
use dsk_agent.Domain.Estate.{
  AncillaryUnit, AncillaryKind, parking, storage, same_kind, ApartmentStatus,
}
use dsk_agent.Db.{Action, Columns, ◌>>=◌, exec, or_throw}

-- The struct `AncillaryUnit`, whose area is a float64, without its times.
pub record UnitItem (F : Type 0) : Type 0 where
  pub id : ℕ
  pub building_id : ℕ
  pub kind : AncillaryKind
  pub number : Text
  pub area : Option F
  pub price : ℤ
  pub status : ApartmentStatus

abbrev kind_text : AncillaryKind → Text
kind_text parking = codes "parking"
kind_text storage = codes "storage"

abbrev optional : {A B : Type 0} → (A → B) → Option A → Option B
optional f none = none
optional f (some a) = some (f a)

abbrev map_all : {A B : Type 0} → (A → B) → List A → List B
map_all f [] = []
map_all f (a ∷ l) = f a ∷ map_all f l

module _ {F : Type 0} where
  -- `scanAncillaryUnit`.
  unfoldable pub scan_ancillary_unit : Columns F → AncillaryUnit → UnitItem F
  scan_ancillary_unit c a = record {
    id = a.id;
    building_id = a.building_id;
    kind = a.kind;
    number = a.number;
    area = optional c.price a.area;
    price = a.price;
    status = a.status;
  }

  -- The row of an item with an id and a building.
  unfoldable pub unit_row : Columns F → ℕ → ℕ → UnitItem F → AncillaryUnit
  unit_row c id building_id x = record {
    id = id;
    building_id = building_id;
    kind = x.kind;
    number = x.number;
    area = optional c.decimal_text x.area;
    price = x.price;
    status = x.status;
  }

  -- `ORDER BY kind, number`.
  abbrev pub unit_before : Columns F → AncillaryUnit → AncillaryUnit → Bool
  unit_before c a b =
      c.text_before (kind_text a.kind) (kind_text b.kind)
      || (same_kind a.kind b.kind && c.text_before a.number b.number)

  -- `ListByBuilding`.
  unfoldable pub list_by_building : ℕ → Action F (List (UnitItem F))
  unfolding scan_ancillary_unit
  list_by_building building_id = exec λ c now t. (
    map_all (scan_ancillary_unit c)
        (sort (unit_before c) (select (λ a. a.building_id == building_id) t.ancillary_units)),
    t,
  )

  -- `Create`.
  unfoldable pub create : UnitItem F → Action F (UnitItem F)
  unfolding scan_ancillary_unit unit_row
  create x = exec λ c now t.
      let row = unit_row c t.next_id x.building_id x in
      (
        scan_ancillary_unit c row,
        record t { next_id = t.next_id + 1; ancillary_units = t.ancillary_units ++ row ∷ [] },
      )

  -- `Update`: the building stays.
  unfoldable pub update : UnitItem F → Action F (UnitItem F)
  unfolding scan_ancillary_unit unit_row
  update x = do
    updated ← exec {A = Option (UnitItem F)} λ c now t.
        let rows =
          update_where (λ a. a.id == x.id) (λ a. unit_row c a.id a.building_id x)
            t.ancillary_units in
        (
          optional (scan_ancillary_unit c) (find (λ a. a.id == x.id) rows),
          record t { ancillary_units = rows },
        )
    or_throw updated ancillary_unit_not_found
