-- ===== src/Prelude/Lists.antt =====
-- Lists by Boolean tests, measured by native numbers, and predicates on their members.
use Prim.Native.Nat.{ℕ, suc}
use mathlib.Core.Path.{refl, ◌≡◌, ap}
use mathlib.Core.Logic.{inl, inr}
use mathlib.Core.Bool.{Bool, true, false, ◌||◌}
use mathlib.Core.Option.{Option, none, some}
use mathlib.Core.List.{map, List, [], ◌∷◌, ◌++◌, Memᴰ}
use native.Mathlib.Omega.{arith}
use frpay.Prelude.Tests.{Bool-cases, if◌then◌else◌}

module _ {ℓ} {A : Type ℓ} where
  abbrev pub length : List A → ℕ
  length [] = 0
  length (x ∷ xs) = suc (length xs)

  -- Whether some member passes the test.
  unfoldable pub any : (A → Bool) → List A → Bool
  any p [] = false
  any p (x ∷ xs) = p x || any p xs

  -- The members that pass the test, in their order.
  unfoldable pub select : (A → Bool) → List A → List A
  select p [] = []
  select p (x ∷ xs) = let rest = select p xs in if p x then x ∷ rest else rest

  -- Apply `f` to the members that pass the test.
  unfoldable pub update : (A → Bool) → (A → A) → List A → List A
  update p f [] = []
  update p f (x ∷ xs) = (if p x then f x else x) ∷ update p f xs

  abbrev pub is_some : Option A → Bool
  is_some none = false
  is_some (some x) = true

  abbrev pub first : List A → Option A
  first [] = none
  first (x ∷ xs) = some x

  pub any-none : (p : A → Bool) {x : A} {xs : List A} → any p xs ≡ false → Memᴰ x xs → p x ≡ false
  unfolding any
  any-none p {xs = []} h m = elim m [ ]
  any-none p {xs = x ∷ xs} h (Memᴰ.head e) = ground arith
  any-none p {xs = x ∷ xs} h (Memᴰ.tail m) = any-none p (ground arith) m

  pub any-some : (p : A → Bool) {x : A} {xs : List A} → Memᴰ x xs → p x ≡ true → any p xs ≡ true
  unfolding any
  any-some p {xs = []} m h = elim m [ ]
  any-some p {xs = x ∷ xs} (Memᴰ.head e) h = ground arith
  any-some p {xs = x ∷ xs} (Memᴰ.tail m) h = ground (arith, any-some p m h)

  pub any-last : (p : A → Bool) {x : A} (xs : List A) → p x ≡ true → any p (xs ++ x ∷ []) ≡ true
  unfolding any
  any-last p [] h = ground arith
  any-last p (y ∷ ys) h = ground (arith, any-last p ys h)

  pub mem-update :
      (p : A → Bool) (f : A → A) {x : A} {xs : List A}
      → Memᴰ x xs
      → Memᴰ (if p x then f x else x) (update p f xs)
  unfolding update
  mem-update p f {xs = []} m = elim m [ ]
  mem-update p f {xs = y ∷ ys} (Memᴰ.head e) = Memᴰ.head (ap (λ z. if p z then f z else z) e)
  mem-update p f {xs = y ∷ ys} (Memᴰ.tail m) = Memᴰ.tail (mem-update p f m)

  select_here :
      (p : A → Bool) {x y : A} {ys : List A}
      → p y ≡ true
      → (Memᴰ x (select p ys) → Memᴰ x ys × (p x ≡ true))
      → Memᴰ x (y ∷ select p ys)
      → Memᴰ x (y ∷ ys) × (p x ≡ true)
  select_here p hit ih (Memᴰ.head e) = (Memᴰ.head e, rw e hit)
  select_here p hit ih (Memᴰ.tail k) = (Memᴰ.tail (ih k).0, (ih k).1)

  -- A selected member is a member that passes the test.
  pub mem-select :
      (p : A → Bool) {x : A} (xs : List A) → Memᴰ x (select p xs) → Memᴰ x xs × (p x ≡ true)
  unfolding select
  mem-select p [] m = elim m [ ]
  mem-select p (y ∷ ys) m = elim (Bool-cases (p y)) [
    | inl hit ↦ select_here p hit (mem-select p ys) (rw hit at m)
    | inr miss ↦ let (k, e) = mem-select p ys (rw miss at m) in (Memᴰ.tail k, e)
  ]

  pub select-mem :
      (p : A → Bool) {x : A} (xs : List A) → Memᴰ x xs → p x ≡ true → Memᴰ x (select p xs)
  unfolding select
  select-mem p [] m h = elim m [ ]
  select-mem p (y ∷ ys) (Memᴰ.head e) h = rw (rw e at h) (Memᴰ.head e)
  select-mem p (y ∷ ys) (Memᴰ.tail m) h = elim (Bool-cases (p y)) [
    | inl hit ↦ rw hit (Memᴰ.tail (select-mem p ys m h))
    | inr miss ↦ rw miss (select-mem p ys m h)
  ]

  pub any-false :
      (p : A → Bool) (xs : List A) → ((x : A) → Memᴰ x xs → p x ≡ false) → any p xs ≡ false
  unfolding any
  any-false p [] h = refl
  any-false p (x ∷ xs) h = rw (h x (Memᴰ.head refl)) (any-false p xs (λ y m. h y (Memᴰ.tail m)))

  pub any_mono :
      (p q : A → Bool)
      → ((x : A) → p x ≡ true → q x ≡ true)
      → (xs : List A) → any p xs ≡ true
      → any q xs ≡ true
  unfolding any
  any_mono p q h [] e = e
  any_mono p q h (x ∷ xs) e = ground (arith, h x, any_mono p q h xs)

-- The first selected row exists only if a row passes the test.
pub any-of_first {ℓ κ} :
    {A : Type ℓ} {B : Type κ} (p : A → Bool) (f : A → B) (xs : List A) {b : B}
    → first (map f (select p xs)) ≡ some b
    → any p xs ≡ true
unfolding any select
any-of_first p f [] e = cc
any-of_first p f (x ∷ xs) e = elim (Bool-cases (p x)) [
  | inl hit ↦ rw hit refl
  | inr miss ↦ rw miss (any-of_first p f xs (rw miss at e))
]
