-- ===== src/Base/Floats.antt =====
-- Go's float64 as the deals use it. The type stays a parameter: nothing here relies on its arithmetic.
use dsk_agent.Base.{Bool, Option}
use dsk_agent.Base.Text.{Text}

-- `parse` is strconv.ParseFloat, `round` is math.Round and `two_places` prints with `%.2f`.
pub record Floats (F : Type 0) : Type 0 where
  pub zero : F
  pub one : F
  pub hundred : F
  pub lt : F → F → Bool
  pub leq : F → F → Bool
  pub sub : F → F → F
  pub mul : F → F → F
  pub div : F → F → F
  pub round : F → F
  pub parse : Text → Option F
  pub two_places : F → Text
