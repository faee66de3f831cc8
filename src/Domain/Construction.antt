-- ===== src/Domain/Construction.antt =====
-- backend/internal/domain/construction.go and erp.go, beside what Estate has, and the rows of their
-- tables where these differ from the Go structs.
use dsk_agent.Base.{ℕ, Bool, Option}
use dsk_agent.Base.Int.{ℤ}
use dsk_agent.Base.Text.{Text}
use dsk_agent.Domain.Estate.{ApartmentStatus, FinishingType}

pub data BuildingStatus : Type 0 where
  design construction completed suspended : BuildingStatus

pub data WallMaterial : Type 0 where
  panel monolith brick block : WallMaterial

pub record ResidentialComplex : Type 0 where
  pub id : ℕ
  pub name : Text
  pub address : Text
  pub description : Text

pub record Building (F : Type 0) : Type 0 where
  pub id : ℕ
  pub residential_complex_id : ℕ
  pub address : Text
  pub district : Text
  pub latitude : F
  pub longitude : F
  pub floors_count : ℤ
  pub planned_date : Option ℕ
  pub actual_date : Option ℕ
  pub status : BuildingStatus
  pub type_wall_material : WallMaterial
  pub readiness_percent : Option ℤ
  pub forecast_date : Option ℕ
  pub delivery_shift_days : Option ℤ

-- A row of `buildings`, with the columns that may be NULL and that the struct has no place for.
pub record BuildingRow (F : Type 0) : Type 0 where
  pub id : ℕ
  pub residential_complex_id : ℕ
  pub address : Text
  pub district : Option Text
  pub latitude : Option F
  pub longitude : Option F
  pub floors_count : ℤ
  pub planned_date : Option ℕ
  pub actual_date : Option ℕ
  pub status : BuildingStatus
  pub type_wall_material : WallMaterial
  pub readiness_percent : Option ℤ
  pub forecast_date : Option ℕ
  pub delivery_shift_days : Option ℤ

-- The struct `Apartment`: its area and price are float64, where the row keeps decimal texts.
pub record Home (F : Type 0) : Type 0 where
  pub id : ℕ
  pub building_id : ℕ
  pub number : Text
  pub rooms : ℤ
  pub floor : ℤ
  pub area : F
  pub price : F
  pub type_finishing : FinishingType
  pub status : ApartmentStatus

pub record Competitor (F : Type 0) : Type 0 where
  pub id : ℕ
  pub project_name : Text
  pub district : Text
  pub price_per_sqm : Option ℤ
  pub advantages : Option Text
  pub disadvantages : Option Text
  pub source_url : Option Text
  pub observed_at : Option ℕ
  pub updated_at : ℕ
  pub rooms : Option ℤ
  pub area : Option F

pub record ErpEvent : Type 0 where
  pub id : ℕ
  pub building_id : ℕ
  pub kind : Text
  pub title : Text
  pub details : Text
  pub severity : Text
  pub affects_delivery : Bool
  pub delay_days : Option ℤ
  pub occurred_at : ℕ

pub record MaterialStock (F : Type 0) : Type 0 where
  pub id : ℕ
  pub building_id : ℕ
  pub material_name : Text
  pub quantity : F
  pub unit : Text
  pub minimum_quantity : F
  pub updated_at : ℕ

pub record ProductionSchedule : Type 0 where
  pub id : ℕ
  pub building_id : ℕ
  pub product_name : Text
  pub planned_quantity : ℤ
  pub produced_quantity : ℤ
  pub planned_date : ℕ
  pub status : Text
  pub updated_at : ℕ
