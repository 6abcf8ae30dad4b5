-- ===== src/Chains/Evm/Types.antt =====
-- internal/chains/evm/types.go: a log as the node sends it, and numbers in hexadecimal.
use Prim.Native.Char.{Char, code}
use Prim.Native.String.{char_at, ◌++◌ as str_append}
use frpay.Prelude.{
  ℕ, zero, suc, ℤ, pos, negsuc, ◌-ℤ◌, int64, String, ◌&&◌, Option, none, some, List, ◌+◌, ◌-◌, ◌*◌,
  ◌/◌, ◌%◌, ◌==◌, leb, lower, to_lower, if◌then◌else◌,
}

-- `log_data` is the field Data.
pub record RpcLog : Type 0 where
  pub address : String
  pub topics : List String
  pub log_data : String
  pub block_number : String
  pub transaction_hash : String

-- strings.TrimPrefix(s, "0x")
unfoldable pub trim_0x : String → String
trim_0x (String.◌∷◌ c (String.◌∷◌ d s)) =
    if code c == b'0' && code d == b'x' then s else String.◌∷◌ c (String.◌∷◌ d s)
trim_0x s = s

unfoldable pub hex_digit : Char → Option ℕ
unfolding lower
hex_digit c =
    if leb b'0' (code c) && leb (code c) b'9'
    then some (code c - b'0')
    else if leb b'a' (code (lower c)) && leb (code (lower c)) b'f'
    then some (code (lower c) - b'a' + 10)
    else none

-- The digits to the end of the text, after those that make `n`.
unfoldable pub hex_digits : ℕ → String → Option ℕ
hex_digits n String.[] = some n
hex_digits n (String.◌∷◌ c s) = elim (hex_digit c) [
  | none ↦ none
  | some d ↦ hex_digits (n * 16 + d) s
]

unfoldable pub hex_number : String → Option ℕ
hex_number String.[] = none
hex_number (String.◌∷◌ c s) = hex_digits 0 (String.◌∷◌ c s)

abbrev pub negated : Option ℕ → Option ℤ
negated none = none
negated (some n) = some (pos 0 -ℤ pos n)

abbrev pub as_pos : Option ℕ → Option ℤ
as_pos none = none
as_pos (some n) = some (pos n)

-- SetString of big.Int at base 16: a sign, and at least one digit.
unfoldable pub signed_hex : String → Option ℤ
unfolding hex_number
signed_hex String.[] = none
signed_hex (String.◌∷◌ c s) =
    if code c == b'-'
    then negated (hex_number s)
    else if code c == b'+'
    then as_pos (hex_number s)
    else as_pos (hex_number (String.◌∷◌ c s))

unfoldable pub parse_hex_big_int : String → Option ℤ
parse_hex_big_int s = signed_hex (trim_0x s)

abbrev pub low_64 : Option ℤ → Option ℤ
low_64 none = none
low_64 (some n) = some (int64 n)

unfoldable pub parse_hex_quantity : String → Option ℤ
parse_hex_quantity s = low_64 (signed_hex (trim_0x s))

-- The digits of `n` before `rest`; an int64 has at most 16.
unfoldable pub put_digits : ℕ → ℕ → String → String
put_digits zero n rest = rest
put_digits (suc fuel) n rest =
    let longer = String.◌∷◌ (char_at "0123456789abcdef" (n % 16)) rest in
    let whole = put_digits fuel (n / 16) longer in if n / 16 == 0 then longer else whole

unfoldable pub to_hex_quantity : ℤ → String
to_hex_quantity (pos n) = str_append "0x" (put_digits 16 n "")
to_hex_quantity (negsuc n) = str_append "0x-" (put_digits 16 (suc n) "")

unfoldable pub address_to_topic : String → String
address_to_topic address = str_append "0x000000000000000000000000" (to_lower (trim_0x address))
