-- ===== src/Discount.antt =====
-- The exact arithmetic of offers (backend/internal/service/offer.go): percents as basis points, and
-- the rounding of a share of a price. The proofs are in the modules below.
pub mod Meaning
pub mod RoundTrip
pub mod Rounding
use dsk_agent.Base.{
  ℕ, zero, suc, ◌/◌, Bool, false, ◌||◌, Option, none, some, List, [], ◌∷◌, ◌++◌, ltb, ◌==◌,
  if◌then◌else◌,
}
use dsk_agent.Base.Int.{ℤ, pos, negsuc, ◌+ℤ◌, ◌-ℤ◌, ◌*ℤ◌, ltb_ℤ, tdiv, wrap}
use dsk_agent.Base.Text.{Text, trim_space, is_empty, len}
use dsk_agent.Base.Strconv.{parse_int, format_int, split}
use dsk_agent.Domain.Error.{Result, ok, err, invalid_discount}

abbrev starts_with_minus : Text → Bool
starts_with_minus [] = false
starts_with_minus (c ∷ s) = c == b'-'

-- `for len(fraction) < 2 { fraction += "0" }`: two rounds at most.
pad_fraction : ℕ → Text → Text
pad_fraction zero s = s
pad_fraction (suc f) s =
    let more = pad_fraction f (s ++ b'0' ∷ []) in if ltb (len s) 2 then more else s

-- From the two numbers: the sum in int64, and the range check.
basis_points : Option ℤ → Option ℤ → Result ℤ
basis_points none _ = err invalid_discount
basis_points (some whole) none = err invalid_discount
basis_points (some whole) (some fraction) =
    let total = wrap (wrap (whole *ℤ pos 100) +ℤ fraction) in
    if ltb_ℤ total (pos 0) || ltb_ℤ (pos 10000) total then err invalid_discount else ok total

read_fraction : Option ℤ → Text → Result ℤ
unfolding pad_fraction
read_fraction whole fraction =
    if ltb 2 (len fraction)
    then err invalid_discount
    else basis_points whole (parse_int (pad_fraction 2 fraction))

read_parts : List Text → Result ℤ
unfolding read_fraction
read_parts [] = err invalid_discount
read_parts ([] ∷ _) = err invalid_discount
read_parts ((c ∷ s) ∷ []) = read_fraction (parse_int (c ∷ s)) []
read_parts ((c ∷ s) ∷ fraction ∷ []) = read_fraction (parse_int (c ∷ s)) fraction
read_parts ((c ∷ s) ∷ fraction ∷ _ ∷ _) = err invalid_discount

unfoldable pub percent_string_to_basis_points : Text → Result ℤ
unfolding read_parts basis_points
percent_string_to_basis_points raw =
    let value = trim_space raw in
    if is_empty value || starts_with_minus value
    then err invalid_discount
    else read_parts (split b'.' value)

-- `v % d` for Go's int64, whose sign is that of `v`.
unfoldable pub tmod : ℤ → ℕ → ℤ
tmod v d = v -ℤ (tdiv v d *ℤ pos d)

unfoldable pub fmt_two_digits : ℤ → Text
fmt_two_digits v = if ltb_ℤ v (pos 10) then b'0' ∷ format_int v else format_int v

abbrev is_zero : ℤ → Bool
is_zero (pos n) = n == 0
is_zero (negsuc n) = false

unfoldable pub format_basis_points : ℤ → Text
format_basis_points v =
    let whole = tdiv v 100 in
    let fraction = tmod v 100 in
    if is_zero fraction
    then format_int whole
    else if is_zero (tmod fraction 10)
    then format_int whole ++ b'.' ∷ format_int (tdiv fraction 10)
    else format_int whole ++ b'.' ∷ fmt_two_digits fraction

-- The product, the sum and the division are int64 operations; the denominator is positive.
unfoldable pub rounded_ratio : ℤ → ℤ → ℕ → ℤ
rounded_ratio v numerator denominator =
    tdiv (wrap (wrap (v *ℤ numerator) +ℤ pos (denominator / 2))) denominator
