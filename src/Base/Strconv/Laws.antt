-- ===== src/Base/Strconv/Laws.antt =====
-- Laws of the decimal functions: a text of digits is read as the number that it spells, and the
-- print of a number is such a text.
use Prim.Native.Nat.{ℕ, zero, suc, ◌+◌, ◌-◌, ◌*◌, ◌/◌, ◌%◌, ◌^◌, ◌≤◌, ◌<◌}
use mathlib.Core.Path.{◌≡◌, refl}
use mathlib.Core.Bool.{false}
use mathlib.Core.Logic.{◌≢◌}
use mathlib.Core.List.{[], ◌∷◌, ◌++◌}
use mathlib.Core.Option.{some}
use native.Mathlib.Omega.{arith}
use native.Mathlib.Nat.{pow-suc}
use dsk_agent.Base.Lists.{All, All-append}
use dsk_agent.Base.Int.{pos, max_int64}
use dsk_agent.Base.Text.{Text, is_space, trim_left, trim_right, trim_space}
use dsk_agent.Base.Strconv.{scan, parse_int, digits, decimal, split}

abbrev pub IsDigit : ℕ → Type 0
IsDigit c = (b'0' ≤ c) × (c ≤ b'9')

abbrev pub AllDigits : Text → Type 0
AllDigits = All IsDigit

-- The number that digits spell behind `n`.
abbrev pub value_from : ℕ → Text → ℕ
value_from n [] = n
value_from n (c ∷ s) = value_from (n * 10 + (c - b'0')) s

abbrev pub value : Text → ℕ
value = value_from 0

scan_digits : (s : Text) (n : ℕ) → AllDigits s → scan s n ≡ some (value_from n s)
unfolding scan
scan_digits [] n h = refl
scan_digits (c ∷ s) n h = ground (arith, scan_digits s (n * 10 + (c - b'0')) h.1)

pub parse_int-digits :
    (c : ℕ) (s : Text)
    → AllDigits (c ∷ s)
    → value (c ∷ s) ≤ max_int64
    → parse_int (c ∷ s) ≡ some (pos (value (c ∷ s)))
unfolding parse_int
parse_int-digits c s h k = ground (arith, scan_digits (c ∷ s) 0 h)

pub value_from-append : (s t : Text) (n : ℕ) → value_from n (s ++ t) ≡ value_from (value_from n s) t
value_from-append [] t n = refl
value_from-append (c ∷ s) t n = value_from-append s t (n * 10 + (c - b'0'))

digits-AllDigits : (f n : ℕ) → AllDigits (digits f n)
unfolding digits
digits-AllDigits zero n = tt
digits-AllDigits (suc f) n =
    let front = digits f (n / 10) in
    let last = (b'0' + n % 10) ∷ [] in
    ground (arith, All-append IsDigit front last (digits-AllDigits f (n / 10)) (omega arith))

pub decimal-AllDigits : (n : ℕ) → AllDigits (decimal n)
unfolding decimal
decimal-AllDigits n = digits-AllDigits 20 n

digits-value : (f n : ℕ) → n < 10 ^ f → value (digits f n) ≡ n
unfolding digits
digits-value zero n h = omega arith
digits-value (suc f) n h =
    let smaller : n / 10 < 10 ^ f = omega (arith, pow-suc 10 f) in
    let tail = value_from-append (digits f (n / 10)) ((b'0' + n % 10) ∷ []) 0 in
    ground (arith, tail, digits-value f (n / 10) smaller)

pub decimal-value : (n : ℕ) → n < 10 ^ 20 → value (decimal n) ≡ n
unfolding decimal
decimal-value n h = digits-value 20 n h

append-ne-nil : (s : Text) (c : ℕ) → s ++ c ∷ [] ≢ []
append-ne-nil [] c h = cc
append-ne-nil (x ∷ s) c h = cc

pub decimal-ne-nil : (n : ℕ) → decimal n ≢ []
unfolding decimal digits
decimal-ne-nil n = ground (arith, append-ne-nil (digits 19 (n / 10)) (b'0' + n % 10))

abbrev pub NotSpace : ℕ → Type 0
NotSpace c = is_space c ≡ false

pub IsDigit-NotSpace : (c : ℕ) → IsDigit c → NotSpace c
IsDigit-NotSpace c h = ground arith

pub AllDigits-NotSpace : (s : Text) → AllDigits s → All NotSpace s
AllDigits-NotSpace [] h = tt
AllDigits-NotSpace (c ∷ s) h = (IsDigit-NotSpace c h.0, AllDigits-NotSpace s h.1)

trim_left_solid : (s : Text) → All NotSpace s → trim_left s ≡ s
unfolding trim_left
trim_left_solid [] h = refl
trim_left_solid (c ∷ s) h = rw h.0

trim_right_solid : (s : Text) → All NotSpace s → trim_right s ≡ s
unfolding trim_right
trim_right_solid [] h = refl
trim_right_solid (c ∷ []) h = rw h.0
trim_right_solid (c ∷ d ∷ s) h = rw (trim_right_solid (d ∷ s) h.1, trim_right)

-- A text with no space in it is not trimmed.
pub trim_space_solid : (s : Text) → All NotSpace s → trim_space s ≡ s
unfolding trim_space
trim_space_solid s h = rw (trim_left_solid s h) (trim_right_solid s h)

abbrev pub Lacks : ℕ → Text → Type 0
Lacks sep = All (λ c. c ≢ sep)

pub AllDigits-Lacks_dot : (s : Text) → AllDigits s → Lacks b'.' s
AllDigits-Lacks_dot [] h = tt
AllDigits-Lacks_dot (c ∷ s) h = (ground arith, AllDigits-Lacks_dot s h.1)

pub split_whole : (sep : ℕ) (s : Text) → Lacks sep s → split sep s ≡ s ∷ []
unfolding split
split_whole sep [] h = refl
split_whole sep (c ∷ s) h = ground (arith, split_whole sep s h.1)

pub split_two :
    (sep : ℕ) (s t : Text) → Lacks sep s → Lacks sep t → split sep (s ++ sep ∷ t) ≡ s ∷ t ∷ []
unfolding split
split_two sep [] t h k = ground (arith, split_whole sep t k)
split_two sep (c ∷ s) t h k = ground (arith, split_two sep s t h.1 k)

pub decimal_one_digit : (k : ℕ) → k < 10 → decimal k ≡ (b'0' + k) ∷ []
unfolding decimal digits
decimal_one_digit k h = ground arith

pub decimal_two_digits :
    (k : ℕ) → 10 ≤ k → k < 100 → decimal k ≡ (b'0' + k / 10) ∷ (b'0' + k % 10) ∷ []
unfolding decimal digits
decimal_two_digits k h l = ground arith
