-- ===== src/Money.antt =====
-- `decimalMoneyToInteger` (backend/internal/repository/offer.go): the text of a DECIMAL price as a
-- whole number of roubles.
pub mod Meaning
use dsk_agent.Base.{
  ℕ, zero, suc, ◌-◌, Bool, true, false, ◌&&◌, Option, none, some, [], ◌∷◌, ◌++◌, ltb, leb, ◌==◌,
  if◌then◌else◌,
}
use dsk_agent.Base.Int.{ℤ, pos, ◌+ℤ◌, leb_ℤ, wrap}
use dsk_agent.Base.Text.{Text, utf8_len, len}
use dsk_agent.Base.Strconv.{parse_int}
use dsk_agent.Domain.Error.{Result, ok, err, invalid_number}

-- `strings.SplitN(raw, ".", 2)`: what stands before the first point, and what stands behind it.
unfoldable pub split_once : Text → Text × Option Text
split_once [] = ([], none)
split_once (c ∷ s) =
    let (whole, fraction) = split_once s in
    if c == b'.' then ([], some s) else (c ∷ whole, fraction)

-- `strings.TrimRight(s, "0") == ""`.
abbrev pub only_zeros : Text → Bool
only_zeros [] = true
only_zeros (c ∷ s) = (c == b'0') && only_zeros s

-- `s[:n]`. A code point that the cut would break is the replacement character, which no number holds.
abbrev pub byte_prefix : ℕ → Text → Text
byte_prefix n [] = []
byte_prefix n (c ∷ s) =
    let rest = byte_prefix (n - utf8_len c) s in
    if leb (utf8_len c) n then c ∷ rest else if n == 0 then [] else 0xFFFD ∷ []

-- `for len(fraction) < 2 { fraction += "0" }`: two rounds at most.
unfoldable pub pad_two : ℕ → Text → Text
pad_two zero s = s
pad_two (suc f) s = let more = pad_two f (s ++ b'0' ∷ []) in if ltb (len s) 2 then more else s

unfoldable pub round_up : ℤ → Option ℤ → Result ℤ
round_up whole none = err invalid_number
round_up whole (some kopecks) = ok (if leb_ℤ (pos 50) kopecks then wrap (whole +ℤ pos 1) else whole)

unfoldable pub with_fraction : Option ℤ → Option Text → Result ℤ
unfolding round_up pad_two
with_fraction none fraction = err invalid_number
with_fraction (some whole) none = ok whole
with_fraction (some whole) (some fraction) =
    let cut = if ltb 2 (len fraction) then byte_prefix 2 fraction else fraction in
    if only_zeros fraction then ok whole else round_up whole (parse_int (pad_two 2 cut))

unfoldable pub decimal_money_to_integer : Text → Result ℤ
unfolding split_once with_fraction
decimal_money_to_integer raw =
    let (whole, fraction) = split_once raw in with_fraction (parse_int whole) fraction
