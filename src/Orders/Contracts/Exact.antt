-- ===== src/Orders/Contracts/Exact.antt =====
-- The order that ClaimExactMatch gives a transfer to.
use frpay.Prelude.{
  false, any, any-false, ltb_ℤ, ◌&&◌, select-mem, update, ◌==◌, ◌≤ℤ◌, ℤ, leb_ℤ, String, ◌≡◌, refl,
  arith, true, Option, none, some, List, [], ◌∷◌, Memᴰ, Bool-cases, Option-cases, inl, inr, select,
  fits_int32, mem-select,
}
use frpay.Orders.Contracts.Expiry.{wrote}
use frpay.Decimal.{Decimals}
use frpay.Store.{pure, Order, Database, Statement, ok, sent}
use frpay.Orders.Repository.{
  in_window, matched, update_by_id, oldest, claim_found, claim_exact_match, claim_exact_failed,
}
use frpay.Orders.Lifecycle.Methods.{oldest-mem}

module _ {D : Type 0} ⦃dec : Decimals D⦄ where
  -- A list with a member has an oldest order, which expires no later than the member.
  pub oldest-exists :
      (os : List (Order D)) {p : Order D}
      → Memᴰ p os
      → (q : Order D) × (oldest os ≡ some q) × (q.expires_at ≤ℤ p.expires_at)
  unfolding oldest
  oldest-exists [] m = elim m [ ]
  oldest-exists (x ∷ xs) {p} (Memᴰ.head e) = elim (Option-cases (oldest xs)) [
    | inl no_more ↦ (x, rw no_more refl, rw e (omega arith))
    | inr (q, later) ↦ elim (Bool-cases (leb_ℤ x.expires_at q.expires_at)) [
      | inl first_row ↦ (x, rw (later, first_row) refl, rw e (omega arith))
      | inr a_later_row ↦ (q, rw (later, a_later_row) refl, rw e (ground arith))
    ]
  ]
  oldest-exists (x ∷ xs) {p} (Memᴰ.tail m) =
      let (q, later, le) = oldest-exists xs m in
      elim (Bool-cases (leb_ℤ x.expires_at q.expires_at)) [
        | inl first_row ↦ (x, rw (later, first_row) refl, ground (arith, le))
        | inr a_later_row ↦ (q, rw (later, a_later_row) refl, le)
      ]

  oldest-first :
      (os : List (Order D)) {o p : Order D}
      → oldest os ≡ some o
      → Memᴰ p os
      → o.expires_at ≤ℤ p.expires_at
  oldest-first os {o} {p} e m =
      let (q, found, le) = oldest-exists os m in let same : o ≡ q = cc in rw same le

  -- What the claimed order was before: a matching one, and none that matches expires earlier.
  abbrev pub IsChoice : String → D → D → Database D → Order D → Type 0
  IsChoice chain low high w t =
      Memᴰ t w.orders
      × (in_window chain low high w.locked t ≡ true)
      × (any (λ p. in_window chain low high w.locked p && ltb_ℤ p.expires_at t.expires_at) w.orders
          ≡ false)

  chosen :
      (chain : String) (low high : D) (w : Database D) {t : Order D}
      → oldest (select (in_window chain low high w.locked) w.orders) ≡ some t
      → IsChoice chain low high w t
  chosen chain low high w {t} e =
      let (m, hit) = mem-select (in_window chain low high w.locked) w.orders (oldest-mem _ e) in
      (
        m,
        hit,
        any-false _ w.orders (λ p k. elim (Bool-cases (in_window chain low high w.locked p)) [
          | inl fits ↦
              let le =
                oldest-first _ e (select-mem (in_window chain low high w.locked) w.orders k fits) in
              rw fits (ground (arith, le))
          | inr other ↦ rw other refl
        ]),
      )

  claim_found-IsChoice :
      (chain tx : String) (low high amount : D) (height n : ℤ) (w : Database D)
      (best : Option (Order D)) {o : Order D}
      → oldest (select (in_window chain low high w.locked) w.orders) ≡ best
      → (claim_found tx amount height n best w).0 ≡ ok (some o)
      → (t : Order D) × (received : D) × IsChoice chain low high w t
        × (dec.column amount ≡ some received)
        × ((claim_found tx amount height n best w).1.orders
            ≡ update (λ p. p.id == t.id) (matched w.now tx received height n) w.orders)
  unfolding claim_found pure update_by_id
  claim_found-IsChoice chain tx low high amount height n w none h e = cc
  claim_found-IsChoice chain tx low high amount height n w (some t) h e =
      elim (Option-cases (dec.column amount)) [
        | inl too_big ↦ cc (rw (too_big, update_by_id) at e)
        | inr (received, fits) ↦
            let (these, state) = wrote _ _ _ w (rw (fits, update_by_id) at e) in
            (t, received, chosen chain low high w h, fits, rw (fits, update_by_id, state) refl)
      ]

  pub claim_exact_match_lem :
      (chain tx : String) (amount : D) (height n : ℤ) (tolerance : D) (w : Database D) {o : Order D}
      → (claim_exact_match chain tx amount height n tolerance w).0 ≡ ok (some o)
      → (t : Order D) × (received : D) × IsChoice chain
          (dec.sub amount tolerance)
          (dec.add amount tolerance)
          w
          t
        × (dec.column amount ≡ some received)
        × ((claim_exact_match chain tx amount height n tolerance w).1.orders
            ≡ update (λ p. p.id == t.id) (matched w.now tx received height n) w.orders)
  unfolding claim_exact_match
  claim_exact_match_lem chain tx amount height n tolerance w {o} e =
      let (done, same) = sent claim_exact_failed Statement.claim_exact_match _ w e in
      elim (Bool-cases (fits_int32 n)) [
        | inl fits ↦
            rw (same, fits)
              (claim_found-IsChoice chain tx _ _ amount height n w _ refl (rw fits at done))
        | inr too_big ↦ cc (rw too_big at done)
      ]
