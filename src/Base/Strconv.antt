-- ===== src/Base/Strconv.antt =====
-- What the program uses of Go's `strconv` and `strings` on decimal numbers: ParseInt and Atoi in
-- base 10, FormatInt, and Split. The laws are in the module below.
pub mod Laws
use Prim.Native.Nat.{ℕ, zero, suc, ◌+◌, ◌-◌, ◌*◌, ◌/◌, ◌%◌, ◌^◌, ◌≤◌}
use mathlib.Core.Bool.{Bool, ◌&&◌}
use mathlib.Core.List.{List, [], ◌∷◌, ◌++◌}
use mathlib.Core.Option.{Option, none, some}
use dsk_agent.Base.Tests.{ltb, leb, ◌==◌, if◌then◌else◌}
use dsk_agent.Base.Int.{ℤ, pos, negsuc, sub_ℕ, max_int64}
use dsk_agent.Base.Text.{Text}

abbrev pub is_digit : ℕ → Bool
is_digit c = leb b'0' c && leb c b'9'

-- The number that digits spell behind `n`.
pub scan : Text → ℕ → Option ℕ
scan [] n = some n
scan (c ∷ s) n = let rest = scan s (n * 10 + (c - b'0')) in if is_digit c then rest else none

parse_uint : Text → Option ℕ
parse_uint [] = none
parse_uint (c ∷ s) = scan (c ∷ s) 0

abbrev nonneg : Option ℕ → Option ℤ
nonneg none = none
nonneg (some n) = if leb n max_int64 then some (pos n) else none

abbrev negated : Option ℕ → Option ℤ
negated none = none
negated (some n) = if leb n (2 ^ 63) then some (sub_ℕ 0 n) else none

-- `strconv.ParseInt(s, 10, 64)`: a sign is allowed, and what does not fit is refused.
unfoldable pub parse_int : Text → Option ℤ
unfolding parse_uint scan
parse_int [] = none
parse_int (c ∷ s) =
    if c == b'-'
    then negated (parse_uint s)
    else if c == b'+'
    then nonneg (parse_uint s)
    else nonneg (parse_uint (c ∷ s))

-- Twenty digits hold every int64.
pub digits : ℕ → ℕ → Text
digits zero n = []
digits (suc f) n =
    let more = digits f (n / 10) ++ (b'0' + n % 10) ∷ [] in
    if ltb n 10 then (b'0' + n) ∷ [] else more

unfoldable pub decimal : ℕ → Text
unfolding digits
decimal n = digits 20 n

-- `strconv.FormatInt(v, 10)`.
unfoldable pub format_int : ℤ → Text
unfolding decimal
format_int (pos n) = decimal n
format_int (negsuc n) = b'-' ∷ decimal (suc n)

-- What `Split` puts before the first part's end: a byte joins the first part.
abbrev onto_first : ℕ → List Text → List Text
onto_first c [] = (c ∷ []) ∷ []
onto_first c (p ∷ ps) = (c ∷ p) ∷ ps

-- `strings.Split(s, sep)` for a separator of one byte.
unfoldable pub split : ℕ → Text → List Text
split sep [] = [] ∷ []
split sep (c ∷ s) = let rest = split sep s in if c == sep then [] ∷ rest else onto_first c rest
