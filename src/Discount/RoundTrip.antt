-- ===== src/Discount/RoundTrip.antt =====
-- `formatBasisPoints` and `percentStringToBasisPoints` (backend/internal/service/offer.go).
use native.Mathlib.Nat.{div-add-mod}
use dsk_agent.Base.{
  ℕ, ◌+◌, ◌*◌, ◌/◌, ◌%◌, ◌≤◌, ◌<◌, ◌≡◌, ◌≢◌, refl, [], ◌∷◌, ◌++◌, arith, ◌==◌, if◌then◌else◌,
  Bool-cases, inl, inr,
}
use dsk_agent.Base.Int.{pos}
use dsk_agent.Base.Text.{Text, len}
use dsk_agent.Base.Strconv.{decimal, format_int}
use dsk_agent.Base.Strconv.Laws.{
  AllDigits, value, decimal-AllDigits, decimal-value, decimal-ne-nil, decimal_one_digit,
  decimal_two_digits,
}
use dsk_agent.Discount.{percent_string_to_basis_points, format_basis_points, fmt_two_digits, tmod}
use dsk_agent.Discount.Meaning.{percent-digits, percent-decimal, hundredths}
use dsk_agent.Domain.Error.{ok}

format_whole : (k : ℕ) → format_int (pos k) ≡ decimal k
unfolding format_int
format_whole k = refl

tmod-pos : (n d : ℕ) → 0 < d → tmod (pos n) d ≡ pos (n % d)
unfolding tmod
tmod-pos n d h = let split = div-add-mod n d in ground (arith, split)

two_digits : (k : ℕ) → k < 100 → fmt_two_digits (pos k) ≡ (b'0' + k / 10) ∷ (b'0' + k % 10) ∷ []
unfolding fmt_two_digits format_int
two_digits k h = ground (arith, decimal_one_digit k, decimal_two_digits k)

-- Behind the point stands one digit where the hundredths end in 0, and two otherwise.
format_parts :
    (n : ℕ)
    → format_basis_points (pos n) ≡ (
        let whole = decimal (n / 100) in
        if n % 100 == 0
        then whole
        else if n % 100 % 10 == 0
        then whole ++ b'.' ∷ (b'0' + n % 100 / 10) ∷ []
        else whole ++ b'.' ∷ (b'0' + n % 100 / 10) ∷ (b'0' + n % 100 % 10) ∷ [])
unfolding format_basis_points
format_parts n = simp (
  tmod-pos n 100 (omega arith),
  tmod-pos (n % 100) 10 (omega arith),
  format_whole,
  decimal_one_digit (n % 100 / 10) (omega arith),
  two_digits (n % 100) (omega arith),
)

percent_whole :
    (t : Text)
    → AllDigits t
    → t ≢ []
    → value t ≤ 100
    → percent_string_to_basis_points t ≡ ok (pos (value t * 100))
percent_whole [] h ne k = absurd (ne refl)
percent_whole (c ∷ s) h ne k = rw (percent-digits c s h (omega arith)) (ground arith)

percent_point :
    (t f : Text)
    → AllDigits t
    → t ≢ []
    → AllDigits f
    → len f ≤ 2
    → value t * 100 + hundredths f ≤ 10000
    → percent_string_to_basis_points (t ++ b'.' ∷ f) ≡ ok (pos (value t * 100 + hundredths f))
percent_point [] f h ne k short le = absurd (ne refl)
percent_point (c ∷ s) f h ne k short le =
    rw (percent-decimal c s f h k short (omega arith)) (ground arith)

module _ (n : ℕ) (h : n ≤ 10000) where
  whole_value : value (decimal (n / 100)) ≡ n / 100
  whole_value = decimal-value (n / 100) (omega arith)

  read_whole : n % 100 ≡ 0 → percent_string_to_basis_points (decimal (n / 100)) ≡ ok (pos n)
  read_whole e =
      let digits = decimal-AllDigits (n / 100) in
      let read =
        percent_whole (decimal (n / 100)) digits (decimal-ne-nil (n / 100))
          (omega (arith, whole_value)) in
      ground (arith, read, whole_value)

  read_point :
      (f : Text)
      → AllDigits f
      → len f ≤ 2
      → hundredths f ≡ n % 100
      → percent_string_to_basis_points (decimal (n / 100) ++ b'.' ∷ f) ≡ ok (pos n)
  read_point f k short e =
      let digits = decimal-AllDigits (n / 100) in
      let read =
        percent_point (decimal (n / 100)) f digits (decimal-ne-nil (n / 100)) k short
          (omega (arith, whole_value)) in
      ground (arith, read, whole_value)

-- The print of every number of basis points up to 10000 is read back as that number.
pub percent-format :
    (n : ℕ) → n ≤ 10000 → percent_string_to_basis_points (format_basis_points (pos n)) ≡ ok (pos n)
percent-format n h = rw (format_parts n) (elim (Bool-cases (n % 100 == 0)) [
  | inl e ↦ rw e (read_whole n h (ground arith))
  | inr e ↦ rw e (elim (Bool-cases (n % 100 % 10 == 0)) [
    | inl d ↦
        rw d
          (read_point n h ((b'0' + n % 100 / 10) ∷ []) (ground arith) (ground arith) (ground arith))
    | inr d ↦ rw d (
        read_point n h ((b'0' + n % 100 / 10) ∷ (b'0' + n % 100 % 10) ∷ []) (ground arith)
          (ground arith) (ground arith))
  ])
])
