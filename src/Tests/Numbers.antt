-- ===== src/Tests/Numbers.antt =====
-- Percents, prices and rounding.
use dsk_agent.Base.{ℕ, ◌+◌, ◌*◌, ◌≤◌, ◌≡◌, refl, arith, some, none}
use dsk_agent.Base.Int.{pos, negsuc, ltb_ℤ}
use dsk_agent.Base.Text.{codes}
use dsk_agent.Domain.Error.{ok}
use dsk_agent.Discount.{percent_string_to_basis_points, format_basis_points, rounded_ratio}
use dsk_agent.Discount.Meaning.{InRange, percent_range, percent-digits, percent-decimal}
use dsk_agent.Discount.RoundTrip.{percent-format}
use dsk_agent.Discount.Rounding.{rounded_ratio_overflow}
use dsk_agent.OfferService.Rules.{calculation, add_units}
use dsk_agent.OfferService.Pricing.{base_price_sum, calculation_exact}
use dsk_agent.Tests.Data.{place}

percent_range_example : InRange (percent_string_to_basis_points (codes "100.01"))
percent_range_example = percent_range (codes "100.01")

percent-digits_example : percent_string_to_basis_points (codes "184467440737095517") ≡ ok (pos 84)
percent-digits_example =
    percent-digits b'1' (codes "84467440737095517") (ground arith) (omega arith)

percent-decimal_example : percent_string_to_basis_points (codes "12.5") ≡ ok (pos 1250)
percent-decimal_example =
    percent-decimal b'1' (codes "2") (codes "5") (ground arith) (ground arith) (omega arith)
      (omega arith)

percent-format_example :
    percent_string_to_basis_points (format_basis_points (pos 1205)) ≡ ok (pos 1205)
percent-format_example = percent-format 1205 (omega arith)

rounded_ratio_overflow_example :
    (k : ℕ) × (rounded_ratio (pos 1000000000000000) (pos 10000) 10000 ≡ negsuc k)
rounded_ratio_overflow_example =
    rounded_ratio_overflow 1000000000000000 10000 (omega arith) (omega arith)

base_price_sum_example : add_units (pos 5000000) (some place) none ≡ ok (pos 5300000)
base_price_sum_example = base_price_sum 5000000 300000 0 (some place) none (omega arith) refl refl

calculation_exact_example :
    let c = calculation 30 (pos 750) (pos 500) (pos 5000000) (pos 5300000) (some place) none in
    (r : ℕ) × (f : ℕ) × (c.discount_amount ≡ pos r)
    × (c.final_price ≡ pos f)
    × (f + r ≡ 5300000)
    × (5300000 * 750 ≤ 10000 * r + 5000)
    × (10000 * r ≤ 5300000 * 750 + 5000)
    × (c.requires_approval ≡ ltb_ℤ (pos 500) (pos 750))
calculation_exact_example =
    calculation_exact 30 5300000 750 (pos 500) (pos 5000000) (some place) none (omega arith)
      (omega arith) (omega arith)
