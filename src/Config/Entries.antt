-- ===== src/Config/Entries.antt =====
-- The entries that splitCSV leaves, and the lists that it reads back.
use Prim.Native.Char.{Char, code}
use Prim.Native.String.{String}
use frpay.Prelude.{
  eq_iff, sym, str_eq, ◌≡◌, refl, ap, ◌∙◌, arith, Bool, true, false, not, ◌&&◌, ◌||◌, ◌==◌, inl,
  inr, Bool-cases, List, [], ◌∷◌,
}
use frpay.Config.Csv.{
  onto_first, split, is_space, trim_start, before_end, trim_end, trim_space, trimmed_parts,
  split_csv,
}

-- An entry of a list: no comma, no space at its ends, and not empty.
abbrev pub starts_with_space : String → Bool
starts_with_space String.[] = false
starts_with_space (String.◌∷◌ c s) = is_space c

abbrev pub is_empty : String → Bool
is_empty String.[] = true
is_empty (String.◌∷◌ c s) = false

unfoldable pub ends_with_space : String → Bool
ends_with_space String.[] = false
ends_with_space (String.◌∷◌ c s) = ends_with_space s || (is_empty s && is_space c)

unfoldable pub has_comma : String → Bool
has_comma String.[] = false
has_comma (String.◌∷◌ c s) = code c == b',' || has_comma s

unfoldable pub is_entry : String → Bool
is_entry s =
    not (is_empty s) && not (starts_with_space s) && not (ends_with_space s) && not (has_comma s)

abbrev pub all_entries : List String → Bool
all_entries [] = true
all_entries (e ∷ es) = is_entry e && all_entries es

pub is_empty_lem : (s : String) → str_eq s "" ≡ is_empty s
is_empty_lem String.[] = refl
is_empty_lem (String.◌∷◌ c s) = elim (Bool-cases (str_eq (String.◌∷◌ c s) "")) [
  | inl hit ↦ hit ∙ sym (ap is_empty ((eq_iff (String.◌∷◌ c s) "").0 hit))
  | inr miss ↦ miss
]

-- Trimming.

before_end_keeps :
    (c : Char) (s : String) → ends_with_space s ≡ false → ends_with_space (before_end c s) ≡ false
unfolding ends_with_space
before_end_keeps c String.[] h = elim (Bool-cases (is_space c)) [
  | inl hit ↦ rw hit refl
  | inr miss ↦ rw miss miss
]
before_end_keeps c (String.◌∷◌ d s) h = ground arith

trim_end-end : (s : String) → ends_with_space (trim_end s) ≡ false
unfolding trim_end
trim_end-end String.[] = unfold ends_with_space in refl
trim_end-end (String.◌∷◌ c s) = before_end_keeps c (trim_end s) (trim_end-end s)

before_end-comma :
    (c : Char) (s : String)
    → has_comma s ≡ false
    → (code c == b',') ≡ false
    → has_comma (before_end c s) ≡ false
unfolding has_comma
before_end-comma c String.[] h e = elim (Bool-cases (is_space c)) [
  | inl hit ↦ rw hit refl
  | inr miss ↦ rw miss (rw e refl)
]
before_end-comma c (String.◌∷◌ d s) h e = ground arith

trim_end-comma : (s : String) → has_comma s ≡ false → has_comma (trim_end s) ≡ false
unfolding trim_end
trim_end-comma String.[] h = h
trim_end-comma (String.◌∷◌ c s) h =
    before_end-comma c (trim_end s) (trim_end-comma s (unfold has_comma in ground arith))
      (unfold has_comma in ground arith)

trim_start-comma : (s : String) → has_comma s ≡ false → has_comma (trim_start s) ≡ false
unfolding trim_start has_comma
trim_start-comma String.[] h = h
trim_start-comma (String.◌∷◌ c s) h = ground (arith, trim_start-comma s)

trim_start-start : (s : String) → starts_with_space (trim_start s) ≡ false
unfolding trim_start
trim_start-start String.[] = refl
trim_start-start (String.◌∷◌ c s) = elim (Bool-cases (is_space c)) [
  | inl hit ↦ rw hit (trim_start-start s)
  | inr miss ↦ rw miss miss
]

before_end-start :
    (c : Char) (s : String) → is_space c ≡ false → starts_with_space (before_end c s) ≡ false
before_end-start c String.[] h = ground arith
before_end-start c (String.◌∷◌ d s) h = h

trim_end-start : (s : String) → starts_with_space s ≡ false → starts_with_space (trim_end s) ≡ false
unfolding trim_end
trim_end-start String.[] h = refl
trim_end-start (String.◌∷◌ c s) h = before_end-start c (trim_end s) h

-- The parts.

abbrev no_commas : List String → Bool
no_commas [] = true
no_commas (p ∷ ps) = not (has_comma p) && no_commas ps

onto_first-commas :
    (c : Char) (ps : List String)
    → (code c == b',') ≡ false
    → no_commas ps ≡ true
    → no_commas (onto_first c ps) ≡ true
unfolding has_comma
onto_first-commas c [] e h = rw e refl
onto_first-commas c (p ∷ ps) e h = rw e h

split-commas : (s : String) → no_commas (split s) ≡ true
unfolding split has_comma
split-commas String.[] = refl
split-commas (String.◌∷◌ c s) = elim (Bool-cases (code c == b',')) [
  | inl hit ↦ rw hit (split-commas s)
  | inr miss ↦ rw miss (onto_first-commas c (split s) miss (split-commas s))
]

trimmed-entry :
    (p : String)
    → has_comma p ≡ false
    → is_empty (trim_space p) ≡ false
    → is_entry (trim_space p) ≡ true
unfolding is_entry trim_space
trimmed-entry p h e = ground (
  arith,
  trim_end-start (trim_start p) (trim_start-start p),
  trim_end-end (trim_start p),
  trim_end-comma (trim_start p) (trim_start-comma p h),
)

parts-entries : (ps : List String) → no_commas ps ≡ true → all_entries (trimmed_parts ps) ≡ true
unfolding trimmed_parts
parts-entries [] h = refl
parts-entries (p ∷ ps) h =
    ground (arith, is_empty_lem (trim_space p), trimmed-entry p, parts-entries ps)

-- Whatever the text, the entries that splitCSV returns are not empty, hold no comma and have no
-- space at their ends.
pub split_csv-entries : (v : String) → all_entries (split_csv v) ≡ true
unfolding split_csv
split_csv-entries v = ground (arith, parts-entries (split v) (split-commas v))
