-- ===== src/Config/Joined.antt =====
-- splitCSV reads back a list of entries joined by commas.
use Prim.Native.Char.{Char}
use Prim.Native.String.{String, char_at}
use frpay.Prelude.{◌≡◌, refl, ap, ◌∙◌, arith, true, false, List, [], ◌∷◌}
use frpay.Config.Csv.{split, trim_start, before_end, trim_end, trim_space, trimmed_parts, split_csv}
use frpay.Config.Entries.{
  is_empty, starts_with_space, ends_with_space, has_comma, is_entry, all_entries, is_empty_lem,
}

-- An entry, a comma and the rest.
abbrev pub and_then : String → String → String
and_then String.[] rest = String.◌∷◌ (char_at "," 0) rest
and_then (String.◌∷◌ c s) rest = String.◌∷◌ c (and_then s rest)

-- The entries with a comma after each but the last.
unfoldable pub join : List String → String
join [] = ""
join (e ∷ []) = e
join (e ∷ f ∷ es) = and_then e (join (f ∷ es))

trim_start_id : (s : String) → starts_with_space s ≡ false → trim_start s ≡ s
unfolding trim_start
trim_start_id String.[] h = refl
trim_start_id (String.◌∷◌ c s) h = rw h refl

before_end_id :
    (c : Char) (s : String)
    → ends_with_space (String.◌∷◌ c s) ≡ false
    → before_end c s ≡ String.◌∷◌ c s
unfolding ends_with_space
before_end_id c String.[] h = rw h refl
before_end_id c (String.◌∷◌ d s) h = refl

trim_end_id : (s : String) → ends_with_space s ≡ false → trim_end s ≡ s
unfolding trim_end
trim_end_id String.[] h = refl
trim_end_id (String.◌∷◌ c s) h =
    ap (before_end c) (trim_end_id s (unfold ends_with_space in ground arith)) ∙ before_end_id c s h

entry_trimmed : (e : String) → is_entry e ≡ true → trim_space e ≡ e
unfolding is_entry trim_space
entry_trimmed e h = ap trim_end (trim_start_id e (ground arith)) ∙ trim_end_id e (ground arith)

split-last : (e : String) → has_comma e ≡ false → split e ≡ e ∷ []
unfolding split has_comma
split-last String.[] h = refl
split-last (String.◌∷◌ c s) h = ground (arith, split-last s)

split-comma : (e t : String) → has_comma e ≡ false → split (and_then e t) ≡ e ∷ split t
unfolding split has_comma
split-comma String.[] t h = refl
split-comma (String.◌∷◌ c s) t h = ground (arith, split-comma s t)

not_empty : (e : String) → is_entry e ≡ true → is_empty e ≡ false
unfolding is_entry
not_empty e h = ground arith

and_then_not_empty : (e t : String) → is_empty (and_then e t) ≡ false
and_then_not_empty String.[] t = refl
and_then_not_empty (String.◌∷◌ c e) t = refl

join_not_empty :
    (e : String) (es : List String) → all_entries (e ∷ es) ≡ true → is_empty (join (e ∷ es)) ≡ false
unfolding join
join_not_empty e [] h = not_empty e (ground arith)
join_not_empty e (f ∷ es) h = and_then_not_empty e (join (f ∷ es))

keeps_entry :
    (e : String) (ps es : List String)
    → is_entry e ≡ true
    → trimmed_parts ps ≡ es
    → trimmed_parts (e ∷ ps) ≡ e ∷ es
unfolding trimmed_parts
keeps_entry e ps es h k = rw (entry_trimmed e h, is_empty_lem e, not_empty e h, k) refl

parts-join :
    (e : String) (es : List String)
    → all_entries (e ∷ es) ≡ true
    → trimmed_parts (split (join (e ∷ es))) ≡ e ∷ es
unfolding join
parts-join e [] h =
    ap trimmed_parts (split-last e (unfold is_entry in ground arith))
    ∙ keeps_entry e [] [] (ground arith) (unfold trimmed_parts in refl)
parts-join e (f ∷ es) h =
    ap trimmed_parts (split-comma e (join (f ∷ es)) (unfold is_entry in ground arith))
    ∙ keeps_entry e _ _ (ground arith) (parts-join f es (ground arith))

-- Of entries that are not empty, hold no comma and have no space at their ends, splitCSV reads back
-- the list from the text that joins them by commas.
pub split_csv-join : (es : List String) → all_entries es ≡ true → split_csv (join es) ≡ es
unfolding split_csv
split_csv-join [] h = unfold join in refl
split_csv-join (e ∷ es) h =
    rw (is_empty_lem (join (e ∷ es)), join_not_empty e es h) (parts-join e es h)
