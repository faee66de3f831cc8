-- ===== src/CatalogueHandler.antt =====
-- The handlers of backend/internal/handler/competitor.go, erp.go and discount_policy.go. The zero time
-- is 0, and `now` is the clock of the server.
use dsk_agent.Base.{ℕ, Bool, false, not, ◌||◌, Option, none, some, List, ◌==◌, if◌then◌else◌}
use dsk_agent.Base.Int.{ℤ, pos, ltb_ℤ}
use dsk_agent.Base.Text.{Text, codes, trim_space, is_empty}
use dsk_agent.Base.Floats.{Floats}
use dsk_agent.Domain.Error.{Err, competitor_not_found}
use dsk_agent.Domain.Account.{User, Role, is_manager, is_supervisor}
use dsk_agent.Domain.Construction.{Competitor, ErpEvent, MaterialStock, ProductionSchedule}
use dsk_agent.Domain.Estate.{DiscountPolicyRecord}
use dsk_agent.Db.{pure}
use dsk_agent.Repo.Competitor as Competitors
use dsk_agent.Repo.Erp as Erp
use dsk_agent.Repo.Policy as Policies
use dsk_agent.Http.{
  Refusal, Response, http_error, http_cause, written, refusal, unauthorized, bad_body, Handler,
  refuse, on_value, need, call, reply, positive_id,
}

abbrev is_negative : Option ℤ → Bool
is_negative none = false
is_negative (some price) = ltb_ℤ price (pos 0)

-- The status for an error of `Update` of a competitor.
unfoldable pub competitor_status : Err → ℕ
competitor_status competitor_not_found = 404
competitor_status _ = 500

abbrev bad_building : Refusal
bad_building = http_error 400 (codes "invalid building id")

-- What `List` writes about the ERP data of a building.
pub record ErpData (F : Type 0) : Type 0 where
  pub events : List ErpEvent
  pub material_stocks : List (MaterialStock F)
  pub production_schedules : List ProductionSchedule

pub record CreateDiscountPolicyRequest : Type 0 where
  pub building_id : ℕ
  pub role : Role
  pub max_discount_percent : Text
  pub valid_from : ℕ

module _ {F : Type 0} where
  -- `decodeCompetitor`.
  unfoldable pub decode_competitor : Option (Competitor F) → Response (Competitor F)
  decode_competitor none = refusal bad_body
  decode_competitor (some body) =
      let item : Competitor F = record body {
        project_name = trim_space body.project_name;
        district = trim_space body.district;
      } in
      if is_empty item.project_name || is_empty item.district || is_negative item.price_per_sqm
      then refusal (http_error 400 (codes "project_name, district and valid price are required"))
      else written 200 item

  -- `List` of competitors.
  unfoldable pub list_competitors : Handler F (List (Competitor F))
  list_competitors = reply 200 Competitors.list (http_cause 500)

  -- `Create` of a competitor.
  unfoldable pub create_competitor : Option (Competitor F) → Handler F (Competitor F)
  unfolding decode_competitor
  create_competitor body =
      on_value (λ item. reply 201 (Competitors.create item) (http_cause 500))
        (decode_competitor body)

  -- `Update` of a competitor.
  unfoldable pub update_competitor : Option ℕ → Option (Competitor F) → Handler F (Competitor F)
  unfolding decode_competitor competitor_status
  update_competitor raw body =
      need (positive_id raw) (http_error 400 (codes "invalid competitor id")) λ id.
        on_value
          (λ item.
            reply 200 (Competitors.update (record item { id = id }))
              (λ e. http_cause (competitor_status e) e))
          (decode_competitor body)

  -- `List` of ERP data.
  unfoldable pub list_erp : Option ℕ → Handler F (ErpData F)
  list_erp raw = need (positive_id raw) bad_building λ id.
      call (Erp.list_events id) (http_cause 500) λ events.
        call (Erp.list_material_stocks id) (http_cause 500) λ stocks.
          call (Erp.list_production_schedules id) (http_cause 500) λ schedules. pure (
            written 200 (record {
              events = events;
              material_stocks = stocks;
              production_schedules = schedules;
            }))

  -- `CreateEvent`.
  unfoldable pub create_event : ℕ → Option ErpEvent → Handler F ErpEvent
  create_event now body = need body (http_error 400 (codes "invalid ERP event")) λ item.
      if (item.building_id == 0) || is_empty item.title
      then refuse (http_error 400 (codes "invalid ERP event"))
      else let occurred_at = if item.occurred_at == 0 then now else item.occurred_at in
        reply 201 (Erp.create_event (record item { occurred_at = occurred_at })) (http_cause 500)

  -- `UpsertStock`.
  unfoldable pub upsert_stock : Floats F → Option (MaterialStock F) → Handler F (MaterialStock F)
  upsert_stock fl body = need body (http_error 400 (codes "invalid material stock")) λ item.
      if (item.building_id == 0) || is_empty item.material_name || fl.lt item.quantity fl.zero
      then refuse (http_error 400 (codes "invalid material stock"))
      else reply 200 (Erp.upsert_material_stock item) (http_cause 500)

  -- `CreateSchedule`.
  unfoldable pub create_schedule : Option ProductionSchedule → Handler F ProductionSchedule
  create_schedule body = need body (http_error 400 (codes "invalid production schedule")) λ item.
      if (item.building_id == 0) || is_empty item.product_name || (item.planned_date == 0)
      then refuse (http_error 400 (codes "invalid production schedule"))
      else reply 201 (Erp.create_production_schedule item) (http_cause 500)

  -- `List` of policies.
  unfoldable pub list_policies : Option ℕ → Handler F (List DiscountPolicyRecord)
  list_policies raw =
      need (positive_id raw) bad_building
        λ id. reply 200 (Policies.list_by_building id) (http_cause 500)

  -- `Create` of a policy.
  unfoldable pub create_policy :
      Floats F → Option User → Option CreateDiscountPolicyRequest → Handler F DiscountPolicyRecord
  create_policy fl u body = need u unauthorized λ actor.
      need body (http_error 400 (codes "invalid discount policy")) λ input.
        if (input.building_id == 0)
          || not (is_manager input.role || is_supervisor input.role)
          || (input.valid_from == 0)
        then refuse (http_error 400 (codes "invalid discount policy"))
        else need (fl.parse input.max_discount_percent) (http_error 400 (codes "invalid discount"))
            λ limit.
              reply 201
                (Policies.create input.building_id input.role input.max_discount_percent
                  input.valid_from actor.id)
                (http_cause 500)
