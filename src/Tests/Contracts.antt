-- ===== src/Tests/Contracts.antt =====
-- Orders that are created, matched and expired.
use frpay.Prelude.{
  All, Extends, Memᴰ, length, ℕ, ℤ, pos, negsuc, ◌≡◌, refl, arith, false, some, [], ◌∷◌, ◌==◌, any,
  select, update, ◌+ℤ◌, ◌-ℤ◌, ◌≤ℤ◌, int64, ◌<◌, ◌+◌,
}
use frpay.Store.{
  timestamptz, timestamptz, Order, Database, ok, wrap, statement, write_orders, consistent,
  conflicts, pure, raise, same_pending_amount, same_tx, ◌>>=◌,
}
use frpay.Chains.Watcher.{polygon}
use frpay.Orders.Repository.{
  with_times, with_times, Draw, claim_exact_match, expire_past_due, create_with_unique_amount,
  draw_offset, draw_in, attempts, attempt, or_else, try_insert, new_order, insert_order, insert_row,
  stored, checked, claim_found, oldest, in_window, tried, matched, update_by_id, past_due, lapsed,
}
use frpay.Orders.Contracts.Offsets.{draw_offset_bounds}
use frpay.Orders.Contracts.Exact.{IsChoice, claim_exact_match_lem}
use frpay.Orders.Contracts.Expiry.{HasExpired, Lapses, expire_past_due_lem}
use frpay.Orders.Contracts.Creation.{IsCreated, create_with_unique_amount_lem}
use frpay.Tests.Fixture.{fixed, decimals, opened, settings, ten_dollars, alice}

abbrev half : ℕ → ℕ
half n = 0

half_below : (n : ℕ) → 0 < n → half n < n
half_below n h = h

draw_offset_bounds_example : (pos 1 ≤ℤ pos 1) × (pos 1 ≤ℤ pos 99)
unfolding draw_offset draw_in int64 ◌+ℤ◌ ◌-ℤ◌
draw_offset_bounds_example =
    draw_offset_bounds (pos 1) (pos 99) half half_below (omega arith) (omega arith) (omega arith)
      refl

-- Bob's order has the same base amount as Alice's, a larger offset, and expires later.
abbrev bob : Order ℤ
bob =
    new_order (record { uuid = 8; intn = λ _. 9; time = pos 1_060_000 }) "bob" polygon ten_dollars
      (pos 12) (pos 1_200_000) (pos 10)

abbrev both : Database ℤ
both = (try_insert bob opened).1

abbrev bob_amount : ℤ
bob_amount = fixed (pos 100010) (negsuc 3)

abbrev alice_claimed : Order ℤ
alice_claimed = matched (pos 1_000_000) "0xb0b" bob_amount (pos 500) (pos 1) alice

-- Bob's exact amount is credited to Alice's order.
first_to_expire :
    (claim_exact_match polygon "0xb0b" bob_amount (pos 500) (pos 1) settings.tolerance both).0
    ≡ ok (some alice_claimed)
unfolding try_insert wrap statement insert_order insert_row stored new_order ◌+ℤ◌ ◌-ℤ◌ checked
    write_orders consistent any select tried update conflicts pure raise same_pending_amount same_tx
    claim_exact_match claim_found oldest in_window matched update_by_id with_times timestamptz
first_to_expire = refl

claim_exact_match_lem_example :
    (t : Order ℤ) × (received : ℤ) × IsChoice polygon
      (decimals.sub bob_amount settings.tolerance)
      (decimals.add bob_amount settings.tolerance)
      both
      t
    × (decimals.column bob_amount ≡ some received)
    × ((claim_exact_match polygon "0xb0b" bob_amount
          (pos 500)
          (pos 1)
          settings.tolerance
          both).1.orders
        ≡ update
            (λ p. p.id == t.id)
            (matched both.now "0xb0b" received (pos 500) (pos 1))
            both.orders)
claim_exact_match_lem_example =
    claim_exact_match_lem polygon "0xb0b" bob_amount (pos 500) (pos 1) settings.tolerance both
      first_to_expire

abbrev late : Database ℤ
late = record opened { now = pos 9_000_000 }

abbrev gone : Order ℤ
gone = lapsed (pos 9_000_000) alice

expires_alice : (expire_past_due late).0 ≡ ok (gone ∷ [])
unfolding try_insert wrap statement insert_order insert_row stored new_order ◌+ℤ◌ ◌-ℤ◌ checked
    write_orders consistent any select tried update conflicts pure raise same_pending_amount same_tx
    expire_past_due past_due lapsed with_times timestamptz
expires_alice = refl

expire_past_due_lem_example :
    All (λ p. (o : Order ℤ) × Memᴰ o late.orders × HasExpired late.now o p) (gone ∷ [])
    × Extends (Lapses late.now (gone ∷ [])) late.orders (expire_past_due late).1.orders
    × (length (expire_past_due late).1.orders ≡ length late.orders)
    × (any (past_due late.now) (expire_past_due late).1.orders ≡ false)
expire_past_due_lem_example = expire_past_due_lem late expires_alice

-- The first draw collides with Alice's amount, the second does not.
abbrev draws : ℕ → Draw
draws n = record { uuid = 20 + n; intn = λ _. 4 + n; time = pos 1_000_000 }

abbrev carol : Order ℤ
carol = new_order (draws 1) "carol" polygon ten_dollars (pos 12) (pos 1_200_000) (pos 6)

second_draw :
    (create_with_unique_amount draws "carol" polygon ten_dollars
      (pos 12)
      (pos 1_200_000)
      (pos 1)
      (pos 99)
      (pos 20)
      opened).0
    ≡ ok carol
unfolding try_insert wrap statement insert_order insert_row stored new_order ◌+ℤ◌ ◌-ℤ◌ checked
    write_orders consistent any select tried update conflicts pure raise same_pending_amount same_tx
    create_with_unique_amount attempts attempt or_else draw_offset draw_in int64 ◌>>=◌ with_times
    timestamptz
second_draw = refl

create_with_unique_amount_lem_example :
    IsCreated draws "carol" polygon ten_dollars
      (pos 12)
      (pos 1_200_000)
      (pos 1)
      (pos 99)
      carol
      opened
      (create_with_unique_amount draws "carol" polygon ten_dollars
        (pos 12)
        (pos 1_200_000)
        (pos 1)
        (pos 99)
        (pos 20)
        opened).1
create_with_unique_amount_lem_example =
    create_with_unique_amount_lem draws "carol" polygon ten_dollars (pos 12) (pos 1_200_000) (pos 1)
      (pos 99) (pos 20) opened second_draw
