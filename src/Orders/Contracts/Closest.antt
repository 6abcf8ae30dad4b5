-- ===== src/Orders/Contracts/Closest.antt =====
-- The loop of ClaimUnderpaid over the candidates: of those within the gap, one with the least.
use frpay.Prelude.{
  subst, ◌≡◌, refl, Bool, false, not, Option, none, some, List, [], ◌∷◌, Memᴰ, Bool-cases, inl, inr,
}
use frpay.Decimal.{Decimals, IsOrdered}
use frpay.Store.{Order}
use frpay.Orders.Repository.{insert_by_expected, order_by_expected, gap_percent, consider, closest}

module _ {D : Type 0} ⦃dec : Decimals D⦄ where
  behind :
      (o p : Order D) {x : Order D} (ps : List (Order D))
      → (Memᴰ x (o ∷ ps) → Memᴰ x (insert_by_expected o ps))
      → Memᴰ x (o ∷ p ∷ ps)
      → Memᴰ x (p ∷ insert_by_expected o ps)
  behind o p ps ih (Memᴰ.head e) = Memᴰ.tail (ih (Memᴰ.head e))
  behind o p ps ih (Memᴰ.tail (Memᴰ.head e)) = Memᴰ.head e
  behind o p ps ih (Memᴰ.tail (Memᴰ.tail k)) = Memᴰ.tail (ih (Memᴰ.tail k))

  insert-mem :
      (o : Order D) {x : Order D} (ps : List (Order D))
      → Memᴰ x (o ∷ ps)
      → Memᴰ x (insert_by_expected o ps)
  unfolding insert_by_expected
  insert-mem o [] m = m
  insert-mem o {x} (p ∷ ps) m = elim (Bool-cases (dec.lt p.expected_amount o.expected_amount)) [
    | inl after ↦ rw after (behind o p ps (insert-mem o ps) m)
    | inr before ↦ rw before m
  ]

  pub order_by_expected-mem :
      {x : Order D} (os : List (Order D)) → Memᴰ x os → Memᴰ x (order_by_expected os)
  unfolding order_by_expected
  order_by_expected-mem [] m = elim m [ ]
  order_by_expected-mem (o ∷ os) (Memᴰ.head e) = insert-mem o _ (Memᴰ.head e)
  order_by_expected-mem (o ∷ os) (Memᴰ.tail k) =
      insert-mem o _ (Memᴰ.tail (order_by_expected-mem os k))

module _ {D : Type 0} ⦃dec : Decimals D⦄ (order : IsOrdered dec) (amount max_gap : D) where
  within : Order D → Bool
  within c = not (dec.lt max_gap (gap_percent amount c))

  not_below_itself : (a : D) → dec.lt a a ≡ false
  not_below_itself a = elim (Bool-cases (dec.lt a a)) [
    | inl hit ↦ order.asymmetric a a hit
    | inr miss ↦ miss
  ]

  -- What a round leaves is no further than the candidate, if that is within the gap.
  consider-candidate :
      (c : Order D) (best : Option (Order D × D))
      → dec.lt max_gap (gap_percent amount c) ≡ false
      → (o : Order D) × (g : D) × (consider amount max_gap c best ≡ some (o, g))
        × (dec.lt (gap_percent amount c) g ≡ false)
  unfolding consider
  consider-candidate c none h = (c, gap_percent amount c, rw h refl, not_below_itself _)
  consider-candidate c (some (b, g)) h = elim (Bool-cases (dec.lt (gap_percent amount c) g)) [
    | inl nearer ↦ (c, gap_percent amount c, rw (h, nearer) refl, not_below_itself _)
    | inr further ↦ (b, g, rw (h, further) refl, further)
  ]

  -- ... and no further than what it started from.
  consider-kept :
      (c b : Order D) (g : D)
      → (o : Order D) × (g' : D) × (consider amount max_gap c (some (b, g)) ≡ some (o, g'))
        × (dec.lt g g' ≡ false)
  unfolding consider
  consider-kept c b g = elim (Bool-cases (dec.lt max_gap (gap_percent amount c))) [
    | inl outside ↦ (b, g, rw outside refl, not_below_itself g)
    | inr inside ↦ elim (Bool-cases (dec.lt (gap_percent amount c) g)) [
      | inl nearer ↦
          (c, gap_percent amount c, rw (inside, nearer) refl, order.asymmetric _ _ nearer)
      | inr further ↦ (b, g, rw (inside, further) refl, not_below_itself g)
    ]
  ]

  closest-kept :
      (b : Order D) (g : D) (cs : List (Order D)) {o : Order D} {least : D}
      → closest amount max_gap (some (b, g)) cs ≡ some (o, least)
      → dec.lt g least ≡ false
  unfolding closest
  closest-kept b g [] {least = least} h =
      let same : g ≡ least = cc in rw same (not_below_itself least)
  closest-kept b g (c ∷ cs) {least = least} h =
      let (b', g', e, le) = consider-kept c b g in
      order.at_most_trans least g' g (closest-kept b' g' cs (rw e at h)) le

  -- No candidate within the gap is nearer than the one that the loop chose.
  pub closest-least :
      (best : Option (Order D × D)) (cs : List (Order D)) {o c : Order D} {least : D}
      → closest amount max_gap best cs ≡ some (o, least)
      → Memᴰ c cs
      → dec.lt max_gap (gap_percent amount c) ≡ false
      → dec.lt (gap_percent amount c) least ≡ false
  unfolding closest
  closest-least best [] h m inside = elim m [ ]
  closest-least best (c ∷ cs) {least = least} h (Memᴰ.head e) inside =
      let (b, g, found, le) = consider-candidate c best (rw e at inside) in
      rw e (order.at_most_trans least g _ (closest-kept b g cs (rw found at h)) le)
  closest-least best (c ∷ cs) h (Memᴰ.tail k) inside =
      closest-least (consider amount max_gap c best) cs h k inside

  -- The gap beside an order is its own, and within the limit.
  abbrev Fair : Option (Order D × D) → Type 0
  Fair none = Unit
  Fair (some (b, g)) = (g ≡ gap_percent amount b) × (dec.lt max_gap g ≡ false)

  consider-Fair :
      (c : Order D) (best : Option (Order D × D))
      → Fair best
      → Fair (consider amount max_gap c best)
  unfolding consider
  consider-Fair c none fair = elim (Bool-cases (dec.lt max_gap (gap_percent amount c))) [
    | inl outside ↦ rw outside tt
    | inr inside ↦ rw inside (refl, inside)
  ]
  consider-Fair c (some (b, g)) fair = elim (Bool-cases (dec.lt max_gap (gap_percent amount c))) [
    | inl outside ↦ rw outside fair
    | inr inside ↦ elim (Bool-cases (dec.lt (gap_percent amount c) g)) [
      | inl nearer ↦ rw (inside, nearer) (refl, inside)
      | inr further ↦ rw (inside, further) fair
    ]
  ]

  closest-Fair :
      (best : Option (Order D × D)) (cs : List (Order D))
      → Fair best
      → Fair (closest amount max_gap best cs)
  unfolding closest
  closest-Fair best [] fair = fair
  closest-Fair best (c ∷ cs) fair =
      closest-Fair (consider amount max_gap c best) cs (consider-Fair c best fair)

  pub closest-within :
      (cs : List (Order D)) {o : Order D} {least : D}
      → closest amount max_gap none cs ≡ some (o, least)
      → (least ≡ gap_percent amount o) × (dec.lt max_gap least ≡ false)
  closest-within cs h = subst Fair h (closest-Fair none cs tt)
