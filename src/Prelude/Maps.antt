-- ===== src/Prelude/Maps.antt =====
-- Go's maps with string keys, as lists of entries with distinct keys.
use Prim.Native.String.{String}
use mathlib.Core.Path.{◌≡◌, refl}
use mathlib.Core.Bool.{not}
use mathlib.Core.Option.{Option, none, some}
use mathlib.Core.List.{List, [], ◌∷◌}
use native.Mathlib.Omega.{arith}
use text.Mathlib.Text.{◌==◌ as str_eq}
use text.Mathlib.TextEquality.{eq_iff}
use frpay.Prelude.Tests.{if◌then◌else◌}
use frpay.Prelude.Lists.{select}

abbrev pub Dict : Type 0 → Type 0
Dict W = List (String × W)

module _ {W : Type 0} where
  -- m[c]
  unfoldable pub lookup : String → Dict W → Option W
  lookup c [] = none
  lookup c ((k, w) ∷ m) = if str_eq k c then some w else lookup c m

  -- m[c] = w
  unfoldable pub insert : String → W → Dict W → Dict W
  insert c w [] = (c, w) ∷ []
  insert c w ((k, v) ∷ m) = if str_eq k c then (c, w) ∷ m else (k, v) ∷ insert c w m

  pub lookup-insert :
      (c j : String) (w : W) (m : Dict W)
      → lookup j (insert c w m) ≡ (if str_eq c j then some w else lookup j m)
  unfolding lookup insert
  lookup-insert c j w [] = refl
  lookup-insert c j w ((k, v) ∷ m) =
      ground (arith, eq_iff c j, eq_iff k c, eq_iff k j, lookup-insert c j w m)

  -- delete(m, c)
  unfoldable pub remove : String → Dict W → Dict W
  remove c = select λ e. not (str_eq e.0 c)

  pub lookup-remove :
      (c j : String) (m : Dict W)
      → lookup j (remove c m) ≡ (if str_eq c j then none else lookup j m)
  unfolding lookup remove select
  lookup-remove c j [] = ground arith
  lookup-remove c j ((k, v) ∷ m) =
      ground (arith, eq_iff c j, eq_iff k c, eq_iff k j, lookup-remove c j m)
