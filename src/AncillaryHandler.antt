-- ===== src/AncillaryHandler.antt =====
-- The handlers of backend/internal/handler/ancillary_unit.go.
use dsk_agent.Base.{ℕ, Bool, not, ◌&&◌, Option, List, ◌==◌, if◌then◌else◌}
use dsk_agent.Base.Int.{pos, ltb_ℤ}
use dsk_agent.Base.Text.{codes, trim_space, is_empty}
use dsk_agent.Domain.Error.{Err, ancillary_unit_not_found}
use dsk_agent.Repo.Ancillary as Rows
use dsk_agent.Repo.Ancillary.{UnitItem}
use dsk_agent.Http.{Refusal, http_error, http_cause, Handler, refuse, need, reply, positive_id}

-- A body, and whether its kind and status, which are texts in Go, are known ones.
pub record UnitBody (F : Type 0) : Type 0 where
  pub item : UnitItem F
  pub is_known : Bool

abbrev bad_unit : Refusal
bad_unit = http_error 400 (codes "invalid ancillary unit")

-- `validAncillary`.
unfoldable pub valid_ancillary : {F : Type 0} → UnitBody F → Bool
valid_ancillary b =
    not (b.item.building_id == 0)
    && not (is_empty (trim_space b.item.number))
    && not (ltb_ℤ b.item.price (pos 0))
    && b.is_known

-- The status for an error of `Update`.
unfoldable pub unit_status : Err → ℕ
unit_status ancillary_unit_not_found = 404
unit_status _ = 500

module _ {F : Type 0} where
  -- `List`.
  unfoldable pub list : Option ℕ → Handler F (List (UnitItem F))
  list raw =
      need (positive_id raw) (http_error 400 (codes "invalid building id"))
        λ id. reply 200 (Rows.list_by_building id) (http_cause 500)

  -- `Create`.
  unfoldable pub create : Option (UnitBody F) → Handler F (UnitItem F)
  unfolding valid_ancillary
  create body = need body bad_unit λ b.
      if not (valid_ancillary b)
      then refuse bad_unit
      else reply 201 (Rows.create b.item) (http_cause 500)

  -- `Update`.
  unfoldable pub update : Option ℕ → Option (UnitBody F) → Handler F (UnitItem F)
  unfolding valid_ancillary unit_status
  update raw body = need raw bad_unit λ id. need body bad_unit λ b.
      if not (valid_ancillary b)
      then refuse bad_unit
      else reply 200 (Rows.update (record (b.item) { id = id })) λ e. http_cause (unit_status e) e
