-- ===== src/Repo/Construction.antt =====
-- backend/internal/repository/construction.go: residential complexes and buildings.
pub mod Scan
use dsk_agent.Base.{
  ℕ, ◌+◌, not, Bool, true, false, Option, none, some, List, [], ◌∷◌, ◌++◌, ◌==◌, find, any, select,
  update_where, if◌then◌else◌,
}
use dsk_agent.Base.Text.{Text, codes}
use dsk_agent.Domain.Error.{
  Err, Result, ok, err, fault, driver, complex_not_found, building_not_found,
}
use dsk_agent.Domain.Construction.{ResidentialComplex, Building, BuildingRow}
use dsk_agent.Db.{Action, Columns, Tables, ◌>>=◌, pure, throw, or_throw, lift, query, exec}
use dsk_agent.Repo.Cascade.{cascade}

-- `errors.New` where a statement has touched no row.
abbrev pub if_touched : {F : Type 0} → Err → Bool → Action F (Unit {0})
if_touched e true = pure tt
if_touched e false = throw e

abbrev pub or_blank : Option Text → Text
or_blank none = []
or_blank (some s) = s

abbrev pub null_to_float : Err
null_to_float = fault (driver (codes "cannot scan NULL into *float64"))

module _ {F : Type 0} where
  -- `scanBuilding`: without a coordinate the field keeps its zero.
  unfoldable pub scan_building : F → BuildingRow F → Building F
  scan_building zero b = record {
    id = b.id;
    residential_complex_id = b.residential_complex_id;
    address = b.address;
    district = or_blank b.district;
    latitude = elim b.latitude [ none ↦ zero | some x ↦ x ];
    longitude = elim b.longitude [ none ↦ zero | some x ↦ x ];
    floors_count = b.floors_count;
    planned_date = b.planned_date;
    actual_date = b.actual_date;
    status = b.status;
    type_wall_material = b.type_wall_material;
    readiness_percent = b.readiness_percent;
    forecast_date = b.forecast_date;
    delivery_shift_days = b.delivery_shift_days;
  }

  -- The scan of `GetBuildingsByComplexID`, straight into the struct, fails at a NULL coordinate.
  unfoldable pub scan_listed : F → BuildingRow F → Result (Building F)
  unfolding scan_building
  scan_listed zero b = elim b.latitude [
    | none ↦ err null_to_float
    | some x ↦ elim b.longitude [ none ↦ err null_to_float | some y ↦ ok (scan_building zero b) ]
  ]

  -- The loop over the rows.
  unfoldable pub scan_all : F → List (BuildingRow F) → Result (List (Building F))
  unfolding scan_listed
  scan_all zero [] = ok []
  scan_all zero (b ∷ l) =
      let rest = scan_all zero l in
      elim (scan_listed zero b) [
        | err e ↦ err e
        | ok x ↦ elim rest [ err e ↦ err e | ok xs ↦ ok (x ∷ xs) ]
      ]

  -- The values of an INSERT or an UPDATE of a building.
  unfoldable pub building_row : Columns F → ℕ → Building F → BuildingRow F
  building_row c id b = record {
    id = id;
    residential_complex_id = b.residential_complex_id;
    address = b.address;
    district = some b.district;
    latitude = some (c.coordinate b.latitude);
    longitude = some (c.coordinate b.longitude);
    floors_count = b.floors_count;
    planned_date = b.planned_date;
    actual_date = b.actual_date;
    status = b.status;
    type_wall_material = b.type_wall_material;
    readiness_percent = b.readiness_percent;
    forecast_date = b.forecast_date;
    delivery_shift_days = b.delivery_shift_days;
  }

  -- `CreateResidentialComplex`: the complex with its new id.
  unfoldable pub create_residential_complex : ResidentialComplex → Action F ResidentialComplex
  create_residential_complex x = exec λ c now t.
      let row : ResidentialComplex = record x { id = t.next_id } in
      (
        row,
        record t {
          next_id = t.next_id + 1;
          residential_complexes = t.residential_complexes ++ row ∷ [];
        },
      )

  -- `GetResidentialComplexByID`.
  unfoldable pub get_residential_complex_by_id : ℕ → Action F ResidentialComplex
  get_residential_complex_by_id id = do
    or_throw (← query (λ now t. find (λ c. c.id == id) t.residential_complexes)) complex_not_found

  -- `GetAllResidentialComplexes`.
  unfoldable pub get_all_residential_complexes : Action F (List ResidentialComplex)
  get_all_residential_complexes = query (λ now t. t.residential_complexes)

  -- `UpdateResidentialComplex`.
  unfoldable pub update_residential_complex : ResidentialComplex → Action F (Unit {0})
  update_residential_complex x = do
    touched ← exec {A = Bool} λ c now t.
        let complexes =
          update_where (λ y. y.id == x.id)
            (λ y. record y { name = x.name; address = x.address; description = x.description })
            t.residential_complexes in
        (
          any (λ y. y.id == x.id) t.residential_complexes,
          record t { residential_complexes = complexes },
        )
    if_touched complex_not_found touched

  -- `DeleteResidentialComplex`.
  unfoldable pub delete_residential_complex : ℕ → Action F (Unit {0})
  unfolding cascade
  delete_residential_complex id = do
    touched ← exec {A = Bool} λ c now t. (
      any (λ y. y.id == id) t.residential_complexes,
      cascade (record t {
        residential_complexes = select (λ y. not (y.id == id)) t.residential_complexes;
      }),
    )
    if_touched complex_not_found touched

  -- `CreateBuilding`: the building with its new id.
  unfoldable pub create_building : Building F → Action F (Building F)
  unfolding building_row
  create_building b = exec λ c now t.
      let id = t.next_id in
      (
        record b { id = id },
        record t { next_id = id + 1; buildings = t.buildings ++ building_row c id b ∷ [] },
      )

  -- `GetBuildingByID`.
  unfoldable pub get_building_by_id : F → ℕ → Action F (Building F)
  unfolding scan_building
  get_building_by_id zero id = do
    row ← or_throw (← query (λ now t. find (λ b. b.id == id) t.buildings)) building_not_found
    pure (scan_building zero row)

  -- `GetBuildingsByComplexID`.
  unfoldable pub get_buildings_by_complex_id : F → ℕ → Action F (List (Building F))
  unfolding scan_all
  get_buildings_by_complex_id zero complex_id = do
    rows ← query (λ now t. select (λ b. b.residential_complex_id == complex_id) t.buildings)
    lift (scan_all zero rows)

  -- `UpdateBuilding`.
  unfoldable pub update_building : Building F → Action F (Unit {0})
  unfolding building_row
  update_building b = do
    touched ← exec {A = Bool} λ c now t. (
      any (λ r. r.id == b.id) t.buildings,
      record t {
        buildings = update_where (λ r. r.id == b.id) (λ r. building_row c r.id b) t.buildings;
      },
    )
    if_touched building_not_found touched

  -- `DeleteBuilding`.
  unfoldable pub delete_building : ℕ → Action F (Unit {0})
  unfolding cascade
  delete_building id = do
    touched ← exec {A = Bool} λ c now t. (
      any (λ b. b.id == id) t.buildings,
      cascade (record t { buildings = select (λ b. not (b.id == id)) t.buildings }),
    )
    if_touched building_not_found touched
