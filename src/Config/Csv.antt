-- ===== src/Config/Csv.antt =====
-- splitCSV: the entries of a list between commas.
use Prim.Native.Char.{Char, code}
use frpay.Prelude.{String, str_eq, Bool, ◌&&◌, ◌||◌, ◌==◌, leb, List, [], ◌∷◌, if◌then◌else◌}

-- The first of the parts goes on before.
abbrev pub onto_first : Char → List String → List String
onto_first c [] = String.◌∷◌ c "" ∷ []
onto_first c (p ∷ ps) = String.◌∷◌ c p ∷ ps

-- strings.Split with ","
unfoldable pub split : String → List String
split String.[] = "" ∷ []
split (String.◌∷◌ c s) =
    let parts = split s in if code c == b',' then "" ∷ parts else onto_first c parts

-- unicode.IsSpace
unfoldable pub is_space : Char → Bool
is_space c =
    let n = code c in
    (leb 9 n && leb n 13)
    || n == 0x20
    || n == 0x85
    || n == 0xA0
    || n == 0x1680
    || (leb 0x2000 n && leb n 0x200A)
    || n == 0x2028
    || n == 0x2029
    || n == 0x202F
    || n == 0x205F
    || n == 0x3000

unfoldable pub trim_start : String → String
trim_start String.[] = ""
trim_start (String.◌∷◌ c s) = let rest = trim_start s in if is_space c then rest else String.◌∷◌ c s

abbrev pub before_end : Char → String → String
before_end c String.[] = if is_space c then "" else String.◌∷◌ c ""
before_end c (String.◌∷◌ d s) = String.◌∷◌ c (String.◌∷◌ d s)

unfoldable pub trim_end : String → String
trim_end String.[] = ""
trim_end (String.◌∷◌ c s) = before_end c (trim_end s)

-- strings.TrimSpace
unfoldable pub trim_space : String → String
trim_space s = trim_end (trim_start s)

-- The loop over the parts.
unfoldable pub trimmed_parts : List String → List String
trimmed_parts [] = []
trimmed_parts (p ∷ ps) =
    let rest = trimmed_parts ps in if str_eq (trim_space p) "" then rest else trim_space p ∷ rest

unfoldable pub split_csv : String → List String
split_csv v = if str_eq v "" then [] else trimmed_parts (split v)
