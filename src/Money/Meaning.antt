-- ===== src/Money/Meaning.antt =====
-- What `decimalMoneyToInteger` returns for the text of a price that is not negative.
use dsk_agent.Base.{ℕ, ◌+◌, ◌<◌, ◌≡◌, refl, [], ◌∷◌, ◌++◌, some, arith, leb, if◌then◌else◌}
use dsk_agent.Base.Int.{pos, max_int64, wrap-pos}
use dsk_agent.Base.Text.{Text}
use dsk_agent.Base.Strconv.{parse_int}
use dsk_agent.Base.Strconv.Laws.{AllDigits, Lacks, value, AllDigits-Lacks_dot, parse_int-digits}
use dsk_agent.Discount.Meaning.{hundredths}
use dsk_agent.Domain.Error.{ok}
use dsk_agent.Money.{split_once, with_fraction, decimal_money_to_integer}

split_once_point : (w f : Text) → Lacks b'.' w → split_once (w ++ b'.' ∷ f) ≡ (w, some f)
unfolding split_once
split_once_point [] f h = refl
split_once_point (c ∷ w) f h = ground (arith, split_once_point w f h.1)

with_fraction_digits :
    (v d : ℕ) (f : Text)
    → AllDigits (d ∷ f)
    → v < max_int64
    → with_fraction (some (pos v)) (some (d ∷ f))
      ≡ ok (pos (v + (if leb 50 (hundredths (d ∷ f)) then 1 else 0)))
unfolding with_fraction parse_int
with_fraction_digits v d [] h fits = ground (arith, wrap-pos (v + 1))
with_fraction_digits v d (e ∷ []) h fits = ground (arith, wrap-pos (v + 1))
with_fraction_digits v d (e ∷ g ∷ r) h fits = ground (arith, wrap-pos (v + 1))

-- A price of digits, a point and at least one more digit is rounded half up by its first two digits behind
-- the point, as long as its whole part is below the largest int64.
pub money-rounds :
    (c : ℕ) (w : Text) (d : ℕ) (f : Text)
    → AllDigits (c ∷ w)
    → AllDigits (d ∷ f)
    → value (c ∷ w) < max_int64
    → decimal_money_to_integer ((c ∷ w) ++ b'.' ∷ d ∷ f)
      ≡ ok (pos (value (c ∷ w) + (if leb 50 (hundredths (d ∷ f)) then 1 else 0)))
unfolding decimal_money_to_integer
money-rounds c w d f h k fits =
    rw (split_once_point (c ∷ w) (d ∷ f) (AllDigits-Lacks_dot (c ∷ w) h))
      (rw (parse_int-digits c w h (omega arith)) (with_fraction_digits (value (c ∷ w)) d f k fits))
