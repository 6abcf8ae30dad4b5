-- ===== src/Chains/Evm/Quantities.antt =====
-- Numbers in hexadecimal, written and read back.
use Prim.Native.Char.{Char, code}
use Prim.Native.String.{String, char_at, ◌++◌ as str_append}
use Prim.Native.String.append
use frpay.Prelude.{
  ◌-ℤ◌, ◌^◌, int64_id, ◌&&◌, not, ==_iff, ℕ, zero, suc, ℤ, pos, negsuc, ◌+◌, ◌*◌, ◌/◌, ◌%◌, ◌<◌,
  ◌==◌, ◌≡◌, refl, ap, ◌∙◌, arith, Bool, true, false, Option, none, some, IsInt64, Bool-cases, inl,
  inr,
}
use frpay.Chains.Evm.Types.{
  low_64, negated, as_pos, parse_hex_quantity, trim_0x, hex_digit, hex_digits, hex_number,
  signed_hex, put_digits, to_hex_quantity,
}

abbrev digit : ℕ → Char
digit d = char_at "0123456789abcdef" d

-- What passes for every number below a bound.
abbrev all_below : ℕ → (ℕ → Bool) → Bool
all_below zero p = true
all_below (suc n) p = p n && all_below n p

below_lem : (n : ℕ) (p : ℕ → Bool) (d : ℕ) → all_below n p ≡ true → d < n → p d ≡ true
below_lem zero p d h lt = absurd (omega arith)
below_lem (suc n) p d h lt = elim (Bool-cases (d == n)) [
  | inl here ↦ ap p ((==_iff d n).0 here) ∙ ground arith
  | inr below ↦ below_lem n p d (ground arith) (ground arith)
]

abbrev reads_as : ℕ → Option ℕ → Bool
reads_as d none = false
reads_as d (some n) = n == d

read : (d : ℕ) (o : Option ℕ) → reads_as d o ≡ true → o ≡ some d
read d none h = cc
read d (some n) h = ap some ((==_iff n d).0 h)

abbrev is_digit : ℕ → Bool
is_digit d =
    reads_as d (hex_digit (digit d)) && not (code (digit d) == b'-') && not (code (digit d) == b'+')

all_digits : all_below 16 is_digit ≡ true
unfolding hex_digit
all_digits = refl

-- A digit reads as its value, and is no sign.
digit_lem :
    (d : ℕ)
    → d < 16
    → (hex_digit (digit d) ≡ some d)
      × ((code (digit d) == b'-') ≡ false)
      × ((code (digit d) == b'+') ≡ false)
digit_lem d h =
    let good = below_lem 16 is_digit d all_digits h in
    (read d _ (ground arith), ground arith, ground arith)

appended :
    (s : String) → str_append "0x" s ≡ String.◌∷◌ (char_at "0" 0) (String.◌∷◌ (char_at "x" 0) s)
appended s =
    append.cons (char_at "0" 0) "x" s
    ∙ ap (λ t. String.◌∷◌ (char_at "0" 0) t)
        (append.cons (char_at "x" 0) "" s ∙ ap (λ t. String.◌∷◌ (char_at "x" 0) t) (append.nil s))

appended_minus :
    (s : String)
    → str_append "0x-" s
      ≡ String.◌∷◌ (char_at "0" 0) (String.◌∷◌ (char_at "x" 0) (String.◌∷◌ (char_at "-" 0) s))
appended_minus s =
    append.cons (char_at "0" 0) "x-" s
    ∙ ap (λ t. String.◌∷◌ (char_at "0" 0) t)
        (append.cons (char_at "x" 0) "-" s
          ∙ ap (λ t. String.◌∷◌ (char_at "x" 0) t)
              (append.cons (char_at "-" 0) "" s
                ∙ ap (λ t. String.◌∷◌ (char_at "-" 0) t) (append.nil s)))

trim_written : (s : String) → trim_0x (str_append "0x" s) ≡ s
unfolding trim_0x
trim_written s = rw (appended s) refl

trim_negative : (s : String) → trim_0x (str_append "0x-" s) ≡ String.◌∷◌ (char_at "-" 0) s
unfolding trim_0x
trim_negative s = rw (appended_minus s) refl

negative : (s : String) → signed_hex (String.◌∷◌ (char_at "-" 0) s) ≡ negated (hex_number s)
unfolding signed_hex
negative s = refl

minus : (n : ℕ) → negated (some (suc n)) ≡ some (negsuc n)
unfolding ◌-ℤ◌
minus n = ground arith

one_digit :
    (k n : ℕ) (rest : String)
    → hex_digits k (String.◌∷◌ (digit (n % 16)) rest) ≡ hex_digits (k * 16 + n % 16) rest
unfolding hex_digits
one_digit k n rest = rw ((digit_lem (n % 16) (omega arith)).0, hex_digits) refl

-- How many numbers these many digits write.
abbrev numbers : ℕ → ℕ
numbers zero = 1
numbers (suc fuel) = 16 * numbers fuel

-- The digits of `n` read back as `n`, whatever follows.
digits_read :
    (fuel n : ℕ) (rest : String)
    → n < numbers fuel
    → hex_digits 0 (put_digits fuel n rest) ≡ hex_digits n rest
unfolding put_digits
digits_read zero n rest h = ap (λ k. hex_digits k rest) (omega arith)
digits_read (suc fuel) n rest h = elim (Bool-cases (n / 16 == 0)) [
  | inl last ↦ rw last (one_digit 0 n rest ∙ ap (λ k. hex_digits k rest) (ground arith))
  | inr more ↦ rw more (
      digits_read fuel (n / 16) (String.◌∷◌ (digit (n % 16)) rest) (omega arith)
      ∙ one_digit (n / 16) n rest
      ∙ ap (λ k. hex_digits k rest) (omega arith))
]

-- They begin with a digit.
digits_begin :
    (fuel n : ℕ) (rest : String)
    → (d : ℕ) × (s : String) × (d < 16) × (put_digits (suc fuel) n rest ≡ String.◌∷◌ (digit d) s)
unfolding put_digits
digits_begin zero n rest = (n % 16, rest, omega arith, ground arith)
digits_begin (suc fuel) n rest = elim (Bool-cases (n / 16 == 0)) [
  | inl last ↦ (n % 16, rest, omega arith, rw last refl)
  | inr more ↦
      let (d, s, small, same) = digits_begin fuel (n / 16) (String.◌∷◌ (digit (n % 16)) rest) in
      (d, s, small, rw more same)
]

-- So no sign is read from them.
unsigned :
    (s : String) (d : ℕ) (t : String)
    → d < 16
    → s ≡ String.◌∷◌ (digit d) t
    → (signed_hex s ≡ as_pos (hex_digits 0 s)) × (hex_number s ≡ hex_digits 0 s)
unfolding signed_hex hex_number
unsigned s d t small e =
    let (value, no_minus, no_plus) = digit_lem d small in rw (e, no_minus, no_plus) (refl, refl)

written_digits : (n : ℕ) → n < 2 ^ 64 → hex_digits 0 (put_digits 16 n "") ≡ some n
unfolding hex_digits
written_digits n h = digits_read 16 n "" h

-- parseHexQuantity reads back every int64, negative ones too, from the text that toHexQuantity
-- writes for it.
pub parse-to_hex_quantity : (n : ℤ) → IsInt64 n → parse_hex_quantity (to_hex_quantity n) ≡ some n
unfolding parse_hex_quantity to_hex_quantity
parse-to_hex_quantity (pos n) h =
    let (d, t, small, e) = digits_begin 15 n "" in
    ap low_64 (
      ap signed_hex (trim_written (put_digits 16 n ""))
      ∙ (unsigned (put_digits 16 n "") d t small e).0
      ∙ ap as_pos (written_digits n (ground arith)))
    ∙ ap some (int64_id (pos n) h)
parse-to_hex_quantity (negsuc n) h =
    let (d, t, small, e) = digits_begin 15 (suc n) "" in
    ap low_64 (
      ap signed_hex (trim_negative (put_digits 16 (suc n) ""))
      ∙ negative (put_digits 16 (suc n) "")
      ∙ ap negated (
          (unsigned (put_digits 16 (suc n) "") d t small e).1
          ∙ written_digits (suc n) (ground arith))
      ∙ minus n)
    ∙ ap some (int64_id (negsuc n) h)
