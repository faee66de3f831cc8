-- ===== src/OfferService/Pricing.antt =====
-- The prices of `Calculate` (backend/internal/service/offer.go).
use dsk_agent.Base.{
  ℕ, ◌+◌, ◌*◌, ◌≤◌, ◌-◌, ◌≡◌, refl, Option, none, some, arith, leb, Bool-cases, inl, inr,
  if◌then◌else◌,
}
use dsk_agent.Base.Int.{ℤ, pos, max_int64, wrap-pos, pos-sub, ltb_ℤ, pos-add}
use dsk_agent.Discount.Rounding.{rounded_ratio_nearest}
use dsk_agent.Domain.Error.{ok, err, invalid_price}
use dsk_agent.Domain.Estate.{AncillaryUnit}
use dsk_agent.OfferService.Rules.{add_unit, add_units, calculation}

-- The unit, where there is one, has this price.
abbrev pub Costs : Option AncillaryUnit → ℕ → Type 0
Costs none q = q ≡ 0
Costs (some unit) q = unit.price ≡ pos q

add_unit-Costs :
    (b q : ℕ) (unit : Option AncillaryUnit)
    → b ≤ max_int64
    → Costs unit q
    → add_unit (pos b) unit
      ≡ (if leb (b + q) max_int64 then ok (pos (b + q)) else err invalid_price)
unfolding add_unit
add_unit-Costs b q none h c = ground arith
add_unit-Costs b q (some unit) h c =
    rw (c, pos-sub max_int64 b h, wrap-pos (max_int64 - b) (omega arith), pos-add b q)
      (ground (arith, wrap-pos (b + q)))

-- For an apartment's price that fits in an int64 and units whose prices are not negative, the loop over
-- the two units gives the exact sum of the three prices where that fits in an int64, and refuses the price
-- otherwise.
pub base_price_sum :
    (a p q : ℕ) (parking_unit storage_unit : Option AncillaryUnit)
    → a ≤ max_int64
    → Costs parking_unit p
    → Costs storage_unit q
    → add_units (pos a) parking_unit storage_unit
      ≡ (if leb (a + p + q) max_int64 then ok (pos (a + p + q)) else err invalid_price)
unfolding add_units
base_price_sum a p q parking_unit storage_unit h cp cq =
    rw (add_unit-Costs a p parking_unit h cp) (elim (Bool-cases (leb (a + p) max_int64)) [
      | inl e ↦ rw e (add_unit-Costs (a + p) q storage_unit (ground arith) cq)
      | inr e ↦ rw e (ground arith)
    ])

-- For a base price that fits in an int64 and at most 10000 basis points whose product and rounding term fit in an int64, the
-- calculation's discount amount and final price are natural numbers that add up to the base price, the
-- amount is within half a unit of the exact share, and approval is required exactly when the discount
-- is above the limit.
pub calculation_exact :
    (deal_id b n : ℕ) (limit apartment_price : ℤ) (parking_unit storage_unit : Option AncillaryUnit)
    → n ≤ 10000
    → b ≤ max_int64
    → b * n + 5000 ≤ max_int64
    → let c = calculation deal_id (pos n) limit apartment_price (pos b) parking_unit storage_unit in
      (r : ℕ) × (f : ℕ) × (c.discount_amount ≡ pos r)
      × (c.final_price ≡ pos f)
      × (f + r ≡ b)
      × (b * n ≤ 10000 * r + 5000)
      × (10000 * r ≤ b * n + 5000)
      × (c.requires_approval ≡ ltb_ℤ limit (pos n))
unfolding calculation
calculation_exact deal_id b n limit apartment_price parking_unit storage_unit h small fits =
    let (r, e, le, low, high) = rounded_ratio_nearest b n h fits in
    (
      r,
      b - r,
      e,
      rw (e, pos-sub b r le) (wrap-pos (b - r) (omega arith)),
      omega (arith, le),
      low,
      high,
      refl,
    )
