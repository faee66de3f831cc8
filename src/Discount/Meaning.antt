-- ===== src/Discount/Meaning.antt =====
-- What `percentStringToBasisPoints` returns (backend/internal/service/offer.go).
use dsk_agent.Base.{
  ℕ, ◌+◌, ◌-◌, ◌*◌, ◌%◌, ◌^◌, ◌≤◌, ◌<◌, ◌≡◌, ◌≢◌, refl, List, [], ◌∷◌, ◌++◌, Option, none, some,
  arith, leb, if◌then◌else◌, All, All-append,
}
use dsk_agent.Base.Int.{ℤ, pos, negsuc, max_int64, wrap, wrap-pos, pos-mul, pos-add}
use dsk_agent.Base.Text.{Text, len, trim_space}
use dsk_agent.Base.Strconv.{parse_int, split}
use dsk_agent.Base.Strconv.Laws.{
  AllDigits, value, NotSpace, AllDigits-NotSpace, trim_space_solid, AllDigits-Lacks_dot,
  split_whole, split_two, parse_int-digits,
}
use dsk_agent.Discount.{
  basis_points, read_fraction, read_parts, pad_fraction, percent_string_to_basis_points,
}
use dsk_agent.Domain.Error.{Result, ok, err, invalid_discount}

-- An accepted number of basis points lies between 0 and 10000.
abbrev pub InRange : Result ℤ → Type 0
InRange (ok (pos n)) = n ≤ 10000
InRange (ok (negsuc n)) = ⊥
InRange (err e) = e ≡ invalid_discount

basis_points-InRange : (w f : Option ℤ) → InRange (basis_points w f)
unfolding basis_points
basis_points-InRange none f = refl
basis_points-InRange (some w) none = refl
basis_points-InRange (some w) (some f) = ground arith

read_fraction-InRange : (w : Option ℤ) (f : Text) → InRange (read_fraction w f)
unfolding read_fraction
read_fraction-InRange w f = ground (arith, basis_points-InRange w (parse_int (pad_fraction 2 f)))

read_parts-InRange : (ps : List Text) → InRange (read_parts ps)
unfolding read_parts
read_parts-InRange [] = refl
read_parts-InRange ([] ∷ _) = refl
read_parts-InRange ((c ∷ s) ∷ []) = read_fraction-InRange (parse_int (c ∷ s)) []
read_parts-InRange ((c ∷ s) ∷ f ∷ []) = read_fraction-InRange (parse_int (c ∷ s)) f
read_parts-InRange ((c ∷ s) ∷ f ∷ _ ∷ _) = refl

-- Every text is refused as an invalid discount, or gives basis points between 0 and 10000.
pub percent_range : (s : Text) → InRange (percent_string_to_basis_points s)
unfolding percent_string_to_basis_points
percent_range s = ground (arith, read_parts-InRange (split b'.' (trim_space s)))

basis_points_exact :
    (w f : ℕ)
    → w * 100 + f ≤ max_int64
    → basis_points (some (pos w)) (some (pos f))
      ≡ (if leb (w * 100 + f) 10000 then ok (pos (w * 100 + f)) else err invalid_discount)
unfolding basis_points
basis_points_exact w f h =
    rw (pos-mul w 100, wrap-pos (w * 100) (omega arith), pos-add (w * 100) f)
      (rw (wrap-pos (w * 100 + f) h) (ground arith))

basis_points_wrapped :
    (w : ℕ)
    → basis_points (some (pos w)) (some (pos 0)) ≡ (
        let bits = w * 100 % 2 ^ 64 in
        if leb bits 10000 then ok (pos bits) else err invalid_discount)
unfolding basis_points wrap
basis_points_wrapped w = ground (arith, pos-mul w 100)

percent_solid :
    (c : ℕ) (s : Text)
    → All NotSpace (c ∷ s)
    → c ≢ b'-'
    → percent_string_to_basis_points (c ∷ s) ≡ read_parts (split b'.' (c ∷ s))
unfolding percent_string_to_basis_points
percent_solid c s h k = ground (arith, trim_space_solid (c ∷ s) h)

read_fraction_zero : (w : Option ℤ) → read_fraction w [] ≡ basis_points w (some (pos 0))
unfolding read_fraction parse_int
read_fraction_zero w = refl

-- A text of digits whose number fits in an int64 is read modulo 2^64 once it is multiplied by 100:
-- it is accepted exactly when that remainder is at most 10000.
pub percent-digits :
    (c : ℕ) (s : Text)
    → AllDigits (c ∷ s)
    → value (c ∷ s) ≤ max_int64
    → percent_string_to_basis_points (c ∷ s) ≡ (
        let bits = value (c ∷ s) * 100 % 2 ^ 64 in
        if leb bits 10000 then ok (pos bits) else err invalid_discount)
unfolding percent_string_to_basis_points
percent-digits c s h k = rw (percent_solid c s (AllDigits-NotSpace (c ∷ s) h) (ground arith)) (
    rw (split_whole b'.' (c ∷ s) (AllDigits-Lacks_dot (c ∷ s) h), read_parts)
      (rw (read_fraction_zero, parse_int-digits c s h k) (basis_points_wrapped (value (c ∷ s)))))

-- The hundredths that one or two digits behind the point spell.
abbrev pub hundredths : Text → ℕ
hundredths [] = 0
hundredths (d ∷ []) = (d - b'0') * 10
hundredths (d ∷ e ∷ _) = (d - b'0') * 10 + (e - b'0')

-- A fraction of at most two digits reaches `basis_points` as its hundredths.
read_fraction_digits :
    (w : Option ℤ) (f : Text)
    → AllDigits f
    → len f ≤ 2
    → read_fraction w f ≡ basis_points w (some (pos (hundredths f)))
unfolding read_fraction parse_int
read_fraction_digits w [] h short = refl
read_fraction_digits w (d ∷ []) h short = ground arith
read_fraction_digits w (d ∷ e ∷ []) h short = ground arith
read_fraction_digits w (d ∷ e ∷ g ∷ r) h short = absurd (ground arith)

pub hundredths-lt : (f : Text) → AllDigits f → hundredths f < 100
hundredths-lt [] h = omega arith
hundredths-lt (d ∷ []) h = omega arith
hundredths-lt (d ∷ e ∷ r) h = omega arith

-- Digits, a point and at most two more digits are read as the decimal number that they spell, and
-- are accepted exactly when it is at most 100, as long as a hundred times it fits in an int64.
pub percent-decimal :
    (c : ℕ) (s f : Text)
    → AllDigits (c ∷ s)
    → AllDigits f
    → len f ≤ 2
    → value (c ∷ s) * 100 + 99 ≤ max_int64
    → percent_string_to_basis_points ((c ∷ s) ++ b'.' ∷ f) ≡ (
        let points = value (c ∷ s) * 100 + hundredths f in
        if leb points 10000 then ok (pos points) else err invalid_discount)
unfolding percent_string_to_basis_points
percent-decimal c s f h k short fits =
    let solid =
      All-append NotSpace (c ∷ s) (b'.' ∷ f) (AllDigits-NotSpace (c ∷ s) h)
        (refl, AllDigits-NotSpace f k) in
    rw (percent_solid c (s ++ b'.' ∷ f) solid (ground arith)) (
      rw
        (
          split_two b'.' (c ∷ s) f (AllDigits-Lacks_dot (c ∷ s) h) (AllDigits-Lacks_dot f k),
          read_parts,
        )
        (rw (parse_int-digits c s h (omega arith)) (
          rw (read_fraction_digits _ f k short) (
            basis_points_exact (value (c ∷ s)) (hundredths f) (omega (arith, hundredths-lt f k))))))
