-- ===== src/Chains/Tron/Address.antt =====
-- internal/chains/tron/address.go: the address as the events spell it.
use Prim.Native.String.{char_at}
use frpay.Prelude.{
  ℕ, zero, suc, String, Bool, List, [], ◌∷◌, ◌==◌, ◌&&◌, length, if◌then◌else◌, true, false, ◌/◌,
  ◌%◌,
}
use frpay.Store.{Result, ok, err}

-- base58.Decode and sha256.Sum256, on bytes.
pub record Codecs : Type 0 where
  pub base58 : String → List ℕ
  pub sha256 : List ℕ → List ℕ

pub data AddressError : Type 0 where
  wrong_length checksum_mismatch unexpected_version : AddressError

unfoldable pub take : ℕ → List ℕ → List ℕ
take zero xs = []
take (suc n) [] = []
take (suc n) (x ∷ xs) = x ∷ take n xs

unfoldable pub drop : ℕ → List ℕ → List ℕ
drop zero xs = xs
drop (suc n) [] = []
drop (suc n) (x ∷ xs) = drop n xs

unfoldable pub same_bytes : List ℕ → List ℕ → Bool
same_bytes [] [] = true
same_bytes (x ∷ xs) (y ∷ ys) = x == y && same_bytes xs ys
same_bytes [] (y ∷ ys) = false
same_bytes (x ∷ xs) [] = false

-- hex.EncodeToString
unfoldable pub encode_hex : List ℕ → String
encode_hex [] = ""
encode_hex (b ∷ bs) =
    String.◌∷◌ (char_at "0123456789abcdef" (b / 16))
      (String.◌∷◌ (char_at "0123456789abcdef" (b % 16)) (encode_hex bs))

unfoldable pub double_sha256 : Codecs → List ℕ → List ℕ
double_sha256 c bytes = c.sha256 (c.sha256 bytes)

-- payload[0], of a payload that is not empty
unfoldable pub version : List ℕ → ℕ
version [] = 0
version (b ∷ bs) = b

unfoldable pub decode_payload : Codecs → List ℕ → List ℕ → Result AddressError String
decode_payload c payload checksum =
    if same_bytes (take 4 (double_sha256 c payload)) checksum
    then (if version payload == 65 then ok (encode_hex payload) else err unexpected_version)
    else err checksum_mismatch

unfoldable pub address_to_hex : Codecs → String → Result AddressError String
address_to_hex c address =
    let full = c.base58 address in
    if length full == 25 then decode_payload c (take 21 full) (drop 21 full) else err wrong_length
