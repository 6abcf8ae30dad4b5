-- ===== src/Prelude/Growth.antt =====
-- Tables that only grow: row by row related, with further rows at the end.
use mathlib.Core.Path.{◌≡◌, refl}
use mathlib.Core.Bool.{Bool, true}
use mathlib.Core.List.{List, [], ◌∷◌, ◌++◌, Memᴰ}
use native.Mathlib.Omega.{arith}
use frpay.Prelude.Tests.{Bool-cases}
use frpay.Prelude.Lists.{any, update}
use mathlib.Core.Logic.{inl, inr}

module _ {A : Type 0} where
  -- The rows of the first list are, in order, the first rows of the second, related by `R`.
  abbrev pub Extends : (A → A → Type 0) → List A → List A → Type 0
  Extends R [] ys = Unit
  Extends R (x ∷ xs) [] = ⊥
  Extends R (x ∷ xs) (y ∷ ys) = R x y × Extends R xs ys

  abbrev pub All : (A → Type 0) → List A → Type 0
  All P [] = Unit
  All P (x ∷ xs) = P x × All P xs

  pub All-append : (P : A → Type 0) (xs ys : List A) → All P xs → All P ys → All P (xs ++ ys)
  All-append P [] ys hx hy = hy
  All-append P (x ∷ xs) ys hx hy = (hx.0, All-append P xs ys hx.1 hy)

  pub All-update :
      (P : A → Type 0) (p : A → Bool) (f : A → A) (xs : List A)
      → ((x : A) → Memᴰ x xs → p x ≡ true → P x → P (f x))
      → All P xs
      → All P (update p f xs)
  unfolding update
  All-update P p f [] h all = tt
  All-update P p f (x ∷ xs) h all =
      let rest = All-update P p f xs (λ y m. h y (Memᴰ.tail m)) all.1 in
      elim (Bool-cases (p x)) [
        | inl hit ↦ rw hit (h x (Memᴰ.head refl) hit all.0, rest)
        | inr miss ↦ rw miss (all.0, rest)
      ]

  pub All-mem : (P : A → Type 0) {x : A} (xs : List A) → All P xs → Memᴰ x xs → P x
  All-mem P [] all m = elim m [ ]
  All-mem P (y ∷ ys) all (Memᴰ.head e) = rw e all.0
  All-mem P (y ∷ ys) all (Memᴰ.tail m) = All-mem P ys all.1 m

  module _ (R : A → A → Type 0) where
    pub Extends-refl : ((x : A) → R x x) → (xs : List A) → Extends R xs xs
    Extends-refl r [] = tt
    Extends-refl r (x ∷ xs) = (r x, Extends-refl r xs)

    pub Extends-trans :
        ((x y z : A) → R x y → R y z → R x z)
        → (xs ys zs : List A) → Extends R xs ys
        → Extends R ys zs
        → Extends R xs zs
    Extends-trans t [] ys zs h k = tt
    Extends-trans t (x ∷ xs) [] zs h k = absurd h
    Extends-trans t (x ∷ xs) (y ∷ ys) [] h k = absurd k
    Extends-trans t (x ∷ xs) (y ∷ ys) (z ∷ zs) h k =
        (t x y z h.0 k.0, Extends-trans t xs ys zs h.1 k.1)

    pub Extends-append : ((x : A) → R x x) → (xs ys : List A) → Extends R xs (xs ++ ys)
    Extends-append r [] ys = tt
    Extends-append r (x ∷ xs) ys = (r x, Extends-append r xs ys)

    pub Extends-update :
        ((x : A) → R x x)
        → (p : A → Bool) (f : A → A) (xs : List A) → ((x : A) → Memᴰ x xs → p x ≡ true → R x (f x))
        → Extends R xs (update p f xs)
    unfolding update
    Extends-update r p f [] h = tt
    Extends-update r p f (x ∷ xs) h =
        let rest = Extends-update r p f xs (λ y m. h y (Memᴰ.tail m)) in
        elim (Bool-cases (p x)) [
          | inl hit ↦ rw hit (h x (Memᴰ.head refl) hit, rest)
          | inr miss ↦ rw miss (r x, rest)
        ]

    pub any-Extends :
        (p : A → Bool)
        → ((x y : A) → R x y → p x ≡ true → p y ≡ true)
        → (xs ys : List A) → Extends R xs ys
        → any p xs ≡ true
        → any p ys ≡ true
    unfolding any
    any-Extends p h [] ys r e = cc
    any-Extends p h (x ∷ xs) [] r e = absurd r
    any-Extends p h (x ∷ xs) (y ∷ ys) r e = ground (arith, h x y r.0, any-Extends p h xs ys r.1)
