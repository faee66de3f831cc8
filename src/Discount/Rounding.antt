-- ===== src/Discount/Rounding.antt =====
-- `roundedRatio` (backend/internal/service/offer.go) at a share in basis points.
use dsk_agent.Base.{ℕ, ◌+◌, ◌-◌, ◌*◌, ◌/◌, ◌^◌, ◌≤◌, ◌≡◌, arith}
use dsk_agent.Base.Int.{pos, negsuc, max_int64, wrap-pos, pos-mul, pos-add, wrap-add, wrap_high}
use dsk_agent.Discount.{rounded_ratio}

-- Where product and rounding term fit in an int64 the share is the quotient rounded half up.
pub rounded_ratio-pos :
    (p n : ℕ)
    → p * n + 5000 ≤ max_int64
    → rounded_ratio (pos p) (pos n) 10000 ≡ pos ((p * n + 5000) / 10000)
unfolding rounded_ratio
rounded_ratio-pos p n h =
    rw (pos-mul p n, wrap-pos (p * n) (omega arith), pos-add (p * n) 5000)
      (rw (wrap-pos (p * n + 5000) h))

-- For a price and at most 10000 basis points whose product and rounding term fit in an int64, the
-- share is at most the price, and within half a unit of the exact ratio.
pub rounded_ratio_nearest :
    (p n : ℕ)
    → n ≤ 10000
    → p * n + 5000 ≤ max_int64
    → (r : ℕ) × (rounded_ratio (pos p) (pos n) 10000 ≡ pos r)
      × (r ≤ p)
      × (p * n ≤ 10000 * r + 5000)
      × (10000 * r ≤ p * n + 5000)
rounded_ratio_nearest p n h fits =
    let r = (p * n + 5000) / 10000 in
    let cap : p * n ≤ p * 10000 = grind arith in
    (r, rounded_ratio-pos p n fits, omega (arith, cap), omega arith, omega arith)

-- Where the product and rounding term lie between 2^63 and 2^64 - 10000 the int64 arithmetic wraps
-- round, and the share is negative.
pub rounded_ratio_overflow :
    (p n : ℕ)
    → 2 ^ 63 ≤ p * n + 5000
    → p * n + 5000 ≤ 2 ^ 64 - 10000
    → (k : ℕ) × (rounded_ratio (pos p) (pos n) 10000 ≡ negsuc k)
unfolding rounded_ratio
rounded_ratio_overflow p n low high = (
  (2 ^ 64 - (p * n + 5000)) / 10000 - 1,
  rw (pos-mul p n, wrap-add (p * n) 5000 (omega arith), wrap_high (p * n + 5000) low (omega arith))
      (ground arith),
)
