-- ===== src/ConstructionHandler.antt =====
-- The handlers of backend/internal/handler/construction.go, for ids in the body that are not negative: Go
-- compares such an id with 0 alone, and leaves a negative one to the foreign key.
use dsk_agent.Base.{ℕ, Bool, not, ◌&&◌, ◌||◌, Option, List, ◌==◌, if◌then◌else◌}
use dsk_agent.Base.Int.{ℤ, pos, ltb_ℤ}
use dsk_agent.Base.Text.{Text, codes, is_empty}
use dsk_agent.Base.Floats.{Floats}
use dsk_agent.Domain.Estate.{ConstructionProgress}
use dsk_agent.Domain.Construction.{ResidentialComplex, Building, Home}
use dsk_agent.Db.{Action, ◌>>◌, pure}
use dsk_agent.ConstructionService as Service
use dsk_agent.Http.{Refusal, http_error, http_cause, bad_body, Handler, refuse, need, reply}

-- A body, and whether its statuses and materials, which are texts in Go, are not empty. A text that
-- PostgreSQL knows no status or material for is left out.
pub record Body (A : Type 0) : Type 0 where
  pub value : A
  pub is_stated : Bool

abbrev is_zero : ℤ → Bool
is_zero z = not (ltb_ℤ z (pos 0)) && not (ltb_ℤ (pos 0) z)

abbrev is_zero_float : {F : Type 0} → Floats F → F → Bool
is_zero_float fl x = fl.leq x fl.zero && fl.leq fl.zero x

abbrev bad_id : Refusal
bad_id = http_error 400 (codes "invalid id")

-- The conditions under which the four bodies are refused.
unfoldable pub bad_complex : ResidentialComplex → Bool
bad_complex x = is_empty x.name || is_empty x.address

unfoldable pub bad_house : {F : Type 0} → Body (Building F) → Bool
bad_house b = (b.value.residential_complex_id == 0) || is_empty b.value.address || not b.is_stated

unfoldable pub bad_apartment : {F : Type 0} → Floats F → Body (Home F) → Bool
bad_apartment fl b =
    (b.value.building_id == 0)
    || is_empty b.value.number
    || is_zero b.value.rooms
    || is_zero_float fl b.value.area
    || is_zero_float fl b.value.price
    || not b.is_stated

unfoldable pub bad_progress : Body ConstructionProgress → Bool
bad_progress b = (b.value.building_id == 0) || is_empty b.value.stage_name || not b.is_stated

abbrev need_complex : Text
need_complex = codes "name and address are required"

abbrev need_building : Text
need_building = codes "residential_complex_id, address, status, and type_wall_material are required"

abbrev need_apartment : Text
need_apartment = codes "building_id, number, rooms, area, price, and status are required"

abbrev need_progress : Text
need_progress = codes "building_id, stage_name, and status are required"

module _ {F : Type 0} where
  -- A body that is decoded and has its required fields.
  abbrev pub with_body :
      {A B : Type 0} → (A → Bool) → Text → Option A → (A → Handler F B) → Handler F B
  with_body is_bad text body f =
      need body bad_body λ b. if is_bad b then refuse (http_error 400 text) else f b

  -- A change of the row with the id of the URL; the body with that id is written.
  abbrev pub changed : {A : Type 0} → Action F (Unit {0}) → A → Handler F A
  changed m a = reply 200 (m >> pure a) (http_cause 500)

  -- `CreateComplex`.
  unfoldable pub create_complex : Option ResidentialComplex → Handler F ResidentialComplex
  unfolding bad_complex
  create_complex body =
      with_body bad_complex need_complex body
        λ b. reply 201 (Service.create_residential_complex b) (http_cause 500)

  -- `GetComplex`.
  unfoldable pub get_complex : Option ℕ → Handler F ResidentialComplex
  get_complex raw =
      need raw bad_id λ id. reply 200 (Service.get_residential_complex_by_id id) (http_cause 404)

  -- `GetAllComplexes`.
  unfoldable pub get_all_complexes : Handler F (List ResidentialComplex)
  get_all_complexes = reply 200 Service.get_all_residential_complexes (http_cause 500)

  -- `UpdateComplex`.
  unfoldable pub update_complex :
      Option ℕ → Option ResidentialComplex → Handler F ResidentialComplex
  unfolding bad_complex
  update_complex raw body = need raw bad_id λ id. with_body bad_complex need_complex body λ b.
      let item : ResidentialComplex = record b { id = id } in
      changed (Service.update_residential_complex item) item

  -- `DeleteComplex`.
  unfoldable pub delete_complex : Option ℕ → Handler F (Unit {0})
  delete_complex raw =
      need raw bad_id λ id. reply 204 (Service.delete_residential_complex id) (http_cause 500)

  -- `CreateBuilding`.
  unfoldable pub create_building : Option (Body (Building F)) → Handler F (Building F)
  unfolding bad_house
  create_building body =
      with_body bad_house need_building body
        λ b. reply 201 (Service.create_building b.value) (http_cause 500)

  -- `GetBuilding`.
  unfoldable pub get_building : F → Option ℕ → Handler F (Building F)
  get_building zero raw =
      need raw bad_id λ id. reply 200 (Service.get_building_by_id zero id) (http_cause 404)

  -- `GetBuildingsByComplex`.
  unfoldable pub get_buildings_by_complex : F → Option ℕ → Handler F (List (Building F))
  get_buildings_by_complex zero raw =
      need raw (http_error 400 (codes "invalid complexId"))
        λ id. reply 200 (Service.get_buildings_by_complex_id zero id) (http_cause 500)

  -- `UpdateBuilding`.
  unfoldable pub update_building : Option ℕ → Option (Body (Building F)) → Handler F (Building F)
  unfolding bad_house
  update_building raw body = need raw bad_id λ id. with_body bad_house need_building body λ b.
      let item : Building F = record (b.value) { id = id } in
      changed (Service.update_building item) item

  -- `DeleteBuilding`.
  unfoldable pub delete_building : Option ℕ → Handler F (Unit {0})
  delete_building raw =
      need raw bad_id λ id. reply 204 (Service.delete_building id) (http_cause 500)

  -- `CreateApartment`.
  unfoldable pub create_apartment : Floats F → Option (Body (Home F)) → Handler F (Home F)
  unfolding bad_apartment
  create_apartment fl body =
      with_body (bad_apartment fl) need_apartment body
        λ b. reply 201 (Service.create_apartment b.value) (http_cause 500)

  -- `GetApartment`.
  unfoldable pub get_apartment : Option ℕ → Handler F (Home F)
  get_apartment raw =
      need raw bad_id λ id. reply 200 (Service.get_apartment_by_id id) (http_cause 404)

  -- `GetApartmentsByBuilding`.
  unfoldable pub get_apartments_by_building : Option ℕ → Handler F (List (Home F))
  get_apartments_by_building raw =
      need raw (http_error 400 (codes "invalid buildingId"))
        λ id. reply 200 (Service.get_apartments_by_building_id id) (http_cause 500)

  -- `UpdateApartment`.
  unfoldable pub update_apartment :
      Floats F → Option ℕ → Option (Body (Home F)) → Handler F (Home F)
  unfolding bad_apartment
  update_apartment fl raw body = need raw bad_id λ id.
      with_body (bad_apartment fl) need_apartment body λ b.
        let item : Home F = record (b.value) { id = id } in
        changed (Service.update_apartment item) item

  -- `DeleteApartment`.
  unfoldable pub delete_apartment : Option ℕ → Handler F (Unit {0})
  delete_apartment raw =
      need raw bad_id λ id. reply 204 (Service.delete_apartment id) (http_cause 500)

  -- `CreateProgress`.
  unfoldable pub create_progress :
      Option (Body ConstructionProgress) → Handler F ConstructionProgress
  unfolding bad_progress
  create_progress body =
      with_body bad_progress need_progress body
        λ b. reply 201 (Service.create_progress b.value) (http_cause 500)

  -- `GetProgress`.
  unfoldable pub get_progress : Option ℕ → Handler F ConstructionProgress
  get_progress raw =
      need raw bad_id λ id. reply 200 (Service.get_progress_by_id id) (http_cause 404)

  -- `GetProgressByBuilding`.
  unfoldable pub get_progress_by_building : Option ℕ → Handler F (List ConstructionProgress)
  get_progress_by_building raw =
      need raw (http_error 400 (codes "invalid buildingId"))
        λ id. reply 200 (Service.get_progress_by_building_id id) (http_cause 500)

  -- `UpdateProgress`.
  unfoldable pub update_progress :
      Option ℕ → Option (Body ConstructionProgress) → Handler F ConstructionProgress
  unfolding bad_progress
  update_progress raw body = need raw bad_id λ id. with_body bad_progress need_progress body λ b.
      let item : ConstructionProgress = record (b.value) { id = id } in
      changed (Service.update_progress item) item

  -- `DeleteProgress`.
  unfoldable pub delete_progress : Option ℕ → Handler F (Unit {0})
  delete_progress raw =
      need raw bad_id λ id. reply 204 (Service.delete_progress id) (http_cause 500)
