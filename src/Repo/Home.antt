-- ===== src/Repo/Home.antt =====
-- backend/internal/repository/construction.go: apartments and stages of construction.
use dsk_agent.Base.{
  ℕ, ◌+◌, not, ◌&&◌, ◌||◌, Bool, true, false, Option, none, some, List, [], ◌∷◌, ◌++◌, ◌==◌, ltb,
  opt_eq, find, any, select, map, update_where,
}
use dsk_agent.Base.Sort.{sort}
use dsk_agent.Domain.Error.{apartment_not_found, progress_not_found}
use dsk_agent.Domain.Estate.{Apartment, ConstructionProgress}
use dsk_agent.Domain.Construction.{Home}
use dsk_agent.Db.{Action, Columns, ◌>>=◌, or_throw, query, exec}
use dsk_agent.Repo.Cascade.{cascade}
use dsk_agent.Repo.Construction.{if_touched}

-- `ORDER BY COALESCE(planned_start_date, actual_start_date), id`, where NULL comes last.
abbrev pub start_date : ConstructionProgress → Option ℕ
start_date p = elim p.planned_start_date [ none ↦ p.actual_start_date | some date ↦ some date ]

abbrev pub date_before : Option ℕ → Option ℕ → Bool
date_before none e = false
date_before (some a) none = true
date_before (some a) (some b) = ltb a b

abbrev pub starts_before : ConstructionProgress → ConstructionProgress → Bool
starts_before p q =
    date_before (start_date p) (start_date q)
    || (opt_eq (start_date p) (start_date q) && ltb p.id q.id)

module _ {F : Type 0} where
  unfoldable pub scan_apartment : Columns F → Apartment → Home F
  scan_apartment c a = record {
    id = a.id;
    building_id = a.building_id;
    number = a.number;
    rooms = a.rooms;
    floor = a.floor;
    area = c.price a.area;
    price = c.price a.price;
    type_finishing = a.type_finishing;
    status = a.status;
  }

  unfoldable pub apartment_row : Columns F → ℕ → Home F → Apartment
  apartment_row c id a = record {
    id = id;
    building_id = a.building_id;
    number = a.number;
    rooms = a.rooms;
    floor = a.floor;
    area = c.decimal_text a.area;
    price = c.decimal_text a.price;
    type_finishing = a.type_finishing;
    status = a.status;
  }

  -- `CreateApartment`: the apartment with its new id.
  unfoldable pub create_apartment : Home F → Action F (Home F)
  unfolding apartment_row
  create_apartment a = exec λ c now t.
      let id = t.next_id in
      (
        record a { id = id },
        record t { next_id = id + 1; apartments = t.apartments ++ apartment_row c id a ∷ [] },
      )

  -- `GetApartmentByID`.
  unfoldable pub get_apartment_by_id : ℕ → Action F (Home F)
  unfolding scan_apartment
  get_apartment_by_id id = do
    found ← exec {A = Option (Home F)} λ c now t. (
      elim (find (λ a. a.id == id) t.apartments) [
        | none ↦ none
        | some a ↦ some (scan_apartment c a)
      ],
      t,
    )
    or_throw found apartment_not_found

  -- `GetApartmentsByBuildingID`.
  unfoldable pub get_apartments_by_building_id : ℕ → Action F (List (Home F))
  unfolding scan_apartment
  get_apartments_by_building_id building_id = exec λ c now t.
      (map (scan_apartment c) (select (λ a. a.building_id == building_id) t.apartments), t)

  -- `UpdateApartment`.
  unfoldable pub update_apartment : Home F → Action F (Unit {0})
  unfolding apartment_row
  update_apartment a = do
    touched ← exec {A = Bool} λ c now t. (
      any (λ r. r.id == a.id) t.apartments,
      record t {
        apartments = update_where (λ r. r.id == a.id) (λ r. apartment_row c r.id a) t.apartments;
      },
    )
    if_touched apartment_not_found touched

  -- `DeleteApartment`.
  unfoldable pub delete_apartment : ℕ → Action F (Unit {0})
  unfolding cascade
  delete_apartment id = do
    touched ← exec {A = Bool} λ c now t. (
      any (λ a. a.id == id) t.apartments,
      cascade (record t { apartments = select (λ a. not (a.id == id)) t.apartments }),
    )
    if_touched apartment_not_found touched

  -- `CreateProgress`: the stage with its new id.
  unfoldable pub create_progress : ConstructionProgress → Action F ConstructionProgress
  create_progress p = exec λ c now t.
      let row : ConstructionProgress = record p { id = t.next_id } in
      (
        row,
        record t {
          next_id = t.next_id + 1;
          construction_progress = t.construction_progress ++ row ∷ [];
        },
      )

  -- `GetProgressByID`.
  unfoldable pub get_progress_by_id : ℕ → Action F ConstructionProgress
  get_progress_by_id id = do
    or_throw (← query (λ now t. find (λ p. p.id == id) t.construction_progress)) progress_not_found

  -- `GetProgressByBuildingID`.
  unfoldable pub get_progress_by_building_id : ℕ → Action F (List ConstructionProgress)
  get_progress_by_building_id building_id = query λ now t.
      sort starts_before (select (λ p. p.building_id == building_id) t.construction_progress)

  -- `UpdateProgress`.
  unfoldable pub update_progress : ConstructionProgress → Action F (Unit {0})
  update_progress p = do
    touched ← exec {A = Bool} λ c now t. (
      any (λ r. r.id == p.id) t.construction_progress,
      record t {
        construction_progress =
            update_where (λ r. r.id == p.id) (λ r. record p { id = r.id }) t.construction_progress;
      },
    )
    if_touched progress_not_found touched

  -- `DeleteProgress`.
  unfoldable pub delete_progress : ℕ → Action F (Unit {0})
  unfolding cascade
  delete_progress id = do
    touched ← exec {A = Bool} λ c now t. (
      any (λ p. p.id == id) t.construction_progress,
      cascade (record t {
        construction_progress = select (λ p. not (p.id == id)) t.construction_progress;
      }),
    )
    if_touched progress_not_found touched
