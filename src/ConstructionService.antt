-- ===== src/ConstructionService.antt =====
-- backend/internal/service/construction.go: the repository's methods, and the notification of the clients
-- after a stage of construction has changed.
pub mod Outcome
use dsk_agent.Base.{ℕ, Option, some, List}
use dsk_agent.Domain.Estate.{ConstructionProgress}
use dsk_agent.Domain.Construction.{ResidentialComplex, Building, Home}
use dsk_agent.Db.{Action, ◌>>=◌, ◌>>◌, pure, ignore}
use dsk_agent.Repo.Construction
use dsk_agent.Repo.Home
use dsk_agent.NotificationService.{notify_construction_update}

module _ {F : Type 0} where
  unfoldable pub create_residential_complex : ResidentialComplex → Action F ResidentialComplex
  create_residential_complex x = Construction.create_residential_complex x

  unfoldable pub get_residential_complex_by_id : ℕ → Action F ResidentialComplex
  get_residential_complex_by_id id = Construction.get_residential_complex_by_id id

  unfoldable pub get_all_residential_complexes : Action F (List ResidentialComplex)
  get_all_residential_complexes = Construction.get_all_residential_complexes

  unfoldable pub update_residential_complex : ResidentialComplex → Action F (Unit {0})
  update_residential_complex x = Construction.update_residential_complex x

  unfoldable pub delete_residential_complex : ℕ → Action F (Unit {0})
  delete_residential_complex id = Construction.delete_residential_complex id

  unfoldable pub create_building : Building F → Action F (Building F)
  create_building b = Construction.create_building b

  unfoldable pub get_building_by_id : F → ℕ → Action F (Building F)
  get_building_by_id zero id = Construction.get_building_by_id zero id

  unfoldable pub get_buildings_by_complex_id : F → ℕ → Action F (List (Building F))
  get_buildings_by_complex_id zero id = Construction.get_buildings_by_complex_id zero id

  unfoldable pub update_building : Building F → Action F (Unit {0})
  update_building b = Construction.update_building b

  unfoldable pub delete_building : ℕ → Action F (Unit {0})
  delete_building id = Construction.delete_building id

  unfoldable pub create_apartment : Home F → Action F (Home F)
  create_apartment a = Home.create_apartment a

  unfoldable pub get_apartment_by_id : ℕ → Action F (Home F)
  get_apartment_by_id id = Home.get_apartment_by_id id

  unfoldable pub get_apartments_by_building_id : ℕ → Action F (List (Home F))
  get_apartments_by_building_id id = Home.get_apartments_by_building_id id

  unfoldable pub update_apartment : Home F → Action F (Unit {0})
  update_apartment a = Home.update_apartment a

  unfoldable pub delete_apartment : ℕ → Action F (Unit {0})
  delete_apartment id = Home.delete_apartment id

  -- `CreateProgress`: an error of the notification is dropped.
  unfoldable pub create_progress : ConstructionProgress → Action F ConstructionProgress
  create_progress p = do
    created ← Home.create_progress p
    ignore (notify_construction_update (some created))
    pure created

  unfoldable pub get_progress_by_id : ℕ → Action F ConstructionProgress
  get_progress_by_id id = Home.get_progress_by_id id

  unfoldable pub get_progress_by_building_id : ℕ → Action F (List ConstructionProgress)
  get_progress_by_building_id id = Home.get_progress_by_building_id id

  -- `UpdateProgress`.
  unfoldable pub update_progress : ConstructionProgress → Action F (Unit {0})
  update_progress p = do
    Home.update_progress p
    ignore (notify_construction_update (some p))
    pure tt

  unfoldable pub delete_progress : ℕ → Action F (Unit {0})
  delete_progress id = Home.delete_progress id
