-- ===== src/Prelude/Numerals.antt =====
-- strconv.ParseInt and strconv.Atoi at base 10 and 64 bits, and strings.EqualFold on ASCII letters.
use Prim.Native.Nat.{ℕ, ◌+◌, ◌-◌, ◌*◌, ◌^◌}
use Prim.Native.Char.{Char, code}
use Prim.Native.String.{String}
use mathlib.Core.Bool.{Bool, ◌&&◌}
use mathlib.Core.Option.{Option, none, some}
use text.Mathlib.Text.{◌==◌ as str_eq}
use frpay.Prelude.Tests.{◌==◌, ltb, leb, if◌then◌else◌}
use frpay.Prelude.Int.{ℤ, pos, ◌-ℤ◌}
use frpay.Prelude.Text.{to_lower}

unfoldable pub decimal_digit : Char → Option ℕ
decimal_digit c = if leb b'0' (code c) && leb (code c) b'9' then some (code c - b'0') else none

-- The digits to the end of the text, after those that make `n`.
unfoldable pub decimal_digits : ℕ → String → Option ℕ
decimal_digits n String.[] = some n
decimal_digits n (String.◌∷◌ c s) = elim (decimal_digit c) [
  | none ↦ none
  | some d ↦ decimal_digits (n * 10 + d) s
]

unfoldable pub decimal_number : String → Option ℕ
decimal_number String.[] = none
decimal_number (String.◌∷◌ c s) = decimal_digits 0 (String.◌∷◌ c s)

-- A number that is out of range is an error.
abbrev pub int64_of : Option ℕ → Option ℤ
int64_of none = none
int64_of (some n) = if ltb n (2 ^ 63) then some (pos n) else none

abbrev pub int64_of_negated : Option ℕ → Option ℤ
int64_of_negated none = none
int64_of_negated (some n) = if leb n (2 ^ 63) then some (pos 0 -ℤ pos n) else none

unfoldable pub parse_int : String → Option ℤ
parse_int String.[] = none
parse_int (String.◌∷◌ c s) =
    if code c == b'-'
    then int64_of_negated (decimal_number s)
    else if code c == b'+'
    then int64_of (decimal_number s)
    else int64_of (decimal_number (String.◌∷◌ c s))

unfoldable pub equal_fold : String → String → Bool
equal_fold s t = str_eq (to_lower s) (to_lower t)
